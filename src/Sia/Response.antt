-- ===== src/Sia/Response.antt =====
-- bridge/internal/sia/response.go. The wall clock is an argument, as a date with a time of day.
pub mod Answers
use ajax_bridge.Prelude.{
  ℕ, Bool, true, false, not, ◌&&◌, Option, none, some, [], ◌∷◌, ◌++◌, if◌then◌else◌, Bytes, codes,
  is_empty, length,
}
use ajax_bridge.Sia.Errors.{SiaError, Result, ok, err, ◌>>=◌}
use ajax_bridge.Sia.Frame.{Frame}
use ajax_bridge.Sia.Frame.Framing.{build_plain_response}
use ajax_bridge.Sia.Crypto.{BlockCipher, decode_aes_key, encrypt_sia_content}
use ajax_bridge.Sia.Timestamp.{Civil, timestamp}

pub data ResponseType : Type 0 where
  ack nak duh : ResponseType

unfoldable pub response_text : ResponseType → Bytes
response_text ack = codes "ACK"
response_text nak = codes "NAK"
response_text duh = codes "DUH"

pub record Responder : Type 0 where
  pub aes_key : Option Bytes

unfoldable pub new_responder : Bytes → Result Responder
new_responder encryption_key = do key ← decode_aes_key encryption_key; ok (record { aes_key = key })

-- `"%s"%s%s%s#%s[]`
unfoldable pub plain_payload : ResponseType → Frame → Bytes
plain_payload kind frame =
    let account : Bytes = if is_empty frame.account then codes "0" else frame.account in
    b'"'
    ∷ (response_text kind
        ++ (b'"'
            ∷ (frame.sequence
                ++ (frame.receiver ++ (frame.line ++ (b'#' ∷ (account ++ (b'[' ∷ b']' ∷ []))))))))

-- `"*ACK"%s%s%s#%s[%s`
unfoldable pub ack_payload : Frame → Bytes → Bytes
ack_payload frame encrypted =
    codes "\"*ACK\""
    ++ (frame.sequence
        ++ (frame.receiver ++ (frame.line ++ (b'#' ∷ (frame.account ++ (b'[' ∷ encrypted))))))

abbrev is_ack : ResponseType → Bool
is_ack ack = true
is_ack _ = false

-- The answer where an encrypted one was tried: without it, the plain one.
abbrev answer : ResponseType → Frame → Result Bytes → Bytes
answer kind frame (ok payload) = build_plain_response payload
answer kind frame (err e) = build_plain_response (plain_payload kind frame)

module _ (aes : BlockCipher) where
  unfoldable pub build_encrypted_ack : Bytes → Civil → Frame → Result Bytes
  build_encrypted_ack key now frame = do
    encrypted ← encrypt_sia_content aes key (b']' ∷ timestamp now)
    ok (ack_payload frame encrypted)

  -- A key is never empty, so `len(r.aesKey) > 0` is that there is one.
  unfoldable pub build_for : Option Bytes → Civil → ResponseType → Frame → Bytes
  build_for none now kind frame = build_plain_response (plain_payload kind frame)
  build_for (some key) now kind frame =
      if frame.encrypted && is_ack kind
      then answer kind frame (build_encrypted_ack key now frame)
      else build_plain_response (plain_payload kind frame)

  -- r.Build(kind, frame)
  unfoldable pub build : Responder → Civil → ResponseType → Option Frame → Bytes
  build r now kind none = build_plain_response (codes "\"NAK\"0000R0L0A0[]" ++ timestamp now)
  build r now kind (some frame) = build_for r.aes_key now kind frame
