-- ===== src/Forward.antt =====
-- bridge/internal/forward/forward.go. What a target does with a frame is an argument: the network.
use ajax_bridge.Prelude.{
  Bool, true, false, not, ◌&&◌, List, [], ◌∷◌, if◌then◌else◌, Bytes, codes, is_empty, map,
}
use ajax_bridge.Text.{trim_space}

-- The fields of `Result` that the program decides on.
pub record ForwardResult : Type 0 where
  pub enabled : Bool
  pub target : Bytes
  pub status : Bytes
  pub ack : Bool
  pub error : Bytes

abbrev pub disabled : ForwardResult
disabled = record {
  enabled = false;
  target = [];
  status = codes "disabled";
  ack = false;
  error = [];
}

unfoldable pub skipped : Bytes → Bytes → ForwardResult
skipped reason target = record {
  enabled = true;
  target = target;
  status = codes "skipped";
  ack = false;
  error = reason;
}

-- The addresses of the forwarders of a group.
unfoldable pub new_group : List Bytes → List Bytes
new_group [] = []
new_group (addr ∷ addrs) =
    let rest : List Bytes = new_group addrs in
    if is_empty (trim_space addr) then rest else trim_space addr ∷ rest

unfoldable pub skipped_all : List Bytes → Bytes → List ForwardResult
skipped_all targets reason =
    if is_empty targets then disabled ∷ [] else map (skipped reason) targets

unfoldable pub all_ack : List ForwardResult → Bool
all_ack [] = true
all_ack (r ∷ rs) = not (r.enabled && not r.ack) && all_ack rs

-- g.Send(ctx, raw), with what each target answers
unfoldable pub send_all : (Bytes → Bytes → ForwardResult) → List Bytes → Bytes → List ForwardResult
send_all send targets raw =
    if is_empty targets then disabled ∷ [] else map (λ target. send target raw) targets
