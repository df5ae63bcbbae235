-- ===== src/Jeedom/Runes.antt =====
-- The tables of runes of bridge/internal/jeedom/slug.go, in the order of the source, and what Go's
-- `unicode` makes of the runes that the sources can meet. A text of the Jeedom side is the list of its
-- code points.
use ajax_bridge.Prelude.{
  ℕ, ◌+◌, ◌-◌, ◌%◌, Bool, false, ◌&&◌, ◌||◌, Option, none, some, List, [], ◌∷◌, leb, ◌==◌,
  if◌then◌else◌, Bytes, codes,
}
use ajax_bridge.Text.{is_upper, is_lower, trim}

abbrev pub elem : ℕ → Bytes → Bool
elem r [] = false
elem r (c ∷ cs) = r == c || elem r cs

abbrev pub between : ℕ → ℕ → ℕ → Bool
between lo hi r = leb lo r && leb r hi

-- The entry of the first row that lists the rune.
abbrev pub row_of {ℓ} : {A : Type ℓ} → ℕ → List (Bytes × A) → Option A
row_of r [] = none
row_of r ((cs, a) ∷ rows) = let rest = row_of r rows in if elem r cs then some a else rest

-- `foldLatin`
unfoldable pub latin_rows : List (Bytes × ℕ)
latin_rows =
    (codes "àáâãäåāăąÀÁÂÃÄÅĀĂĄ", b'a')
    ∷ (codes "çćčÇĆČ", b'c')
    ∷ (codes "ďĐđĎ", b'd')
    ∷ (codes "èéêëēėęÈÉÊËĒĖĘ", b'e')
    ∷ (codes "ìíîïīįÌÍÎÏĪĮ", b'i')
    ∷ (codes "ñńÑŃ", b'n')
    ∷ (codes "òóôõöøōÒÓÔÕÖØŌ", b'o')
    ∷ (codes "řŘ", b'r')
    ∷ (codes "šśŠŚ", b's')
    ∷ (codes "ťŤ", b't')
    ∷ (codes "ùúûüūÙÚÛÜŪ", b'u')
    ∷ (codes "ýÿÝ", b'y')
    ∷ (codes "žźżŽŹŻ", b'z')
    ∷ []

abbrev pub rune_or : ℕ → Option ℕ → ℕ
rune_or r none = r
rune_or r (some c) = c

unfoldable pub fold_latin : ℕ → ℕ
fold_latin r = rune_or r (row_of r latin_rows)

-- `transliterateCyrillic`, but for the signs that are written as nothing
unfoldable pub cyrillic_rows : List (Bytes × Bytes)
cyrillic_rows =
    (codes "а", codes "a")
    ∷ (codes "б", codes "b")
    ∷ (codes "в", codes "v")
    ∷ (codes "гґ", codes "g")
    ∷ (codes "д", codes "d")
    ∷ (codes "еёэ", codes "e")
    ∷ (codes "є", codes "ye")
    ∷ (codes "ж", codes "zh")
    ∷ (codes "з", codes "z")
    ∷ (codes "иы", codes "y")
    ∷ (codes "і", codes "i")
    ∷ (codes "ї", codes "yi")
    ∷ (codes "й", codes "y")
    ∷ (codes "к", codes "k")
    ∷ (codes "л", codes "l")
    ∷ (codes "м", codes "m")
    ∷ (codes "н", codes "n")
    ∷ (codes "о", codes "o")
    ∷ (codes "п", codes "p")
    ∷ (codes "р", codes "r")
    ∷ (codes "с", codes "s")
    ∷ (codes "т", codes "t")
    ∷ (codes "у", codes "u")
    ∷ (codes "ф", codes "f")
    ∷ (codes "х", codes "kh")
    ∷ (codes "ц", codes "ts")
    ∷ (codes "ч", codes "ch")
    ∷ (codes "ш", codes "sh")
    ∷ (codes "щ", codes "shch")
    ∷ (codes "ю", codes "yu")
    ∷ (codes "я", codes "ya")
    ∷ []

abbrev pub text_or_nil : Option Bytes → Bytes
text_or_nil none = []
text_or_nil (some s) = s

unfoldable pub transliterate_cyrillic : ℕ → Bytes
transliterate_cyrillic r = text_or_nil (row_of r cyrillic_rows)

-- The switch of `cp1251Byte`.
unfoldable pub cp1251_rows : List (ℕ × ℕ)
cp1251_rows =
    (1026, 128)
    ∷ (1027, 129)
    ∷ (8218, 130)
    ∷ (1107, 131)
    ∷ (8222, 132)
    ∷ (8230, 133)
    ∷ (8224, 134)
    ∷ (8225, 135)
    ∷ (8364, 136)
    ∷ (8240, 137)
    ∷ (1033, 138)
    ∷ (8249, 139)
    ∷ (1034, 140)
    ∷ (1036, 141)
    ∷ (1035, 142)
    ∷ (1039, 143)
    ∷ (1106, 144)
    ∷ (8216, 145)
    ∷ (8217, 146)
    ∷ (8220, 147)
    ∷ (8221, 148)
    ∷ (8226, 149)
    ∷ (8211, 150)
    ∷ (8212, 151)
    ∷ (8482, 153)
    ∷ (1113, 154)
    ∷ (8250, 155)
    ∷ (1114, 156)
    ∷ (1116, 157)
    ∷ (1115, 158)
    ∷ (1119, 159)
    ∷ (160, 160)
    ∷ (1038, 161)
    ∷ (1118, 162)
    ∷ (1032, 163)
    ∷ (164, 164)
    ∷ (1168, 165)
    ∷ (166, 166)
    ∷ (167, 167)
    ∷ (1025, 168)
    ∷ (169, 169)
    ∷ (1028, 170)
    ∷ (171, 171)
    ∷ (172, 172)
    ∷ (173, 173)
    ∷ (174, 174)
    ∷ (1031, 175)
    ∷ (176, 176)
    ∷ (177, 177)
    ∷ (1030, 178)
    ∷ (1110, 179)
    ∷ (1169, 180)
    ∷ (181, 181)
    ∷ (182, 182)
    ∷ (183, 183)
    ∷ (1105, 184)
    ∷ (8470, 185)
    ∷ (1108, 186)
    ∷ (187, 187)
    ∷ (1112, 188)
    ∷ (1029, 189)
    ∷ (1109, 190)
    ∷ (1111, 191)
    ∷ []

unfoldable pub byte_in : ℕ → List (ℕ × ℕ) → Option ℕ
byte_in r [] = none
byte_in r ((c, b) ∷ rows) = let rest = byte_in r rows in if r == c then some b else rest

unfoldable pub cp1251_byte : ℕ → Option ℕ
cp1251_byte r = if between 1040 1103 r then some (r - 1040 + 192) else byte_in r cp1251_rows

-- The runes that `mojibakeScore` counts.
unfoldable pub is_mojibake : ℕ → Bool
is_mojibake r = elem r (codes "ÐÑÂÃРСВГµ©°ЎЂІЅ")

-- unicode.Is(unicode.Cyrillic, r)
unfoldable pub is_cyrillic : ℕ → Bool
is_cyrillic r =
    between 1024 1156 r
    || between 1159 1327 r
    || between 7296 7306 r
    || r == 7467
    || r == 7544
    || between 11744 11775 r
    || between 42560 42655 r
    || between 65070 65071 r
    || between 122928 122989 r
    || r == 123023

-- The capitals whose small letter is the next rune: Latin Extended-A.
unfoldable pub is_paired_capital : ℕ → Bool
is_paired_capital r =
    r % 2 == 0 && (between 256 303 r || between 306 311 r || between 330 375 r)
    || r % 2 == 1 && (between 313 328 r || between 377 382 r)

-- The capitals whose small letter stands 32 further: Latin-1, Greek and Cyrillic.
unfoldable pub is_far_capital : ℕ → Bool
is_far_capital r =
    is_upper r
    || between 192 214 r
    || between 216 222 r
    || between 913 929 r
    || between 931 939 r
    || between 1040 1071 r

-- unicode.ToLower, of the Latin, Greek and Cyrillic letters in general use
unfoldable pub lower_rune : ℕ → ℕ
lower_rune r =
    if is_far_capital r
    then r + 32
    else if is_paired_capital r
    then r + 1
    else if between 1024 1039 r
    then r + 80
    else if r == 376
    then 255
    else if r == 1168
    then 1169
    else if r == 304
    then b'i'
    else if r == 8490
    then b'k'
    else if r == 8491
    then 229
    else r

unfoldable pub is_paired_small : ℕ → Bool
is_paired_small r =
    r % 2 == 1 && (between 256 303 r || between 306 311 r || between 330 375 r)
    || r % 2 == 0 && (between 313 328 r || between 377 382 r)

unfoldable pub is_far_small : ℕ → Bool
is_far_small r =
    is_lower r
    || between 224 246 r
    || between 248 254 r
    || between 945 961 r
    || between 963 971 r
    || between 1072 1103 r

-- unicode.ToUpper, of the same letters
unfoldable pub upper_rune : ℕ → ℕ
upper_rune r =
    if is_far_small r
    then r - 32
    else if is_paired_small r
    then r - 1
    else if between 1104 1119 r
    then r - 80
    else if r == 181
    then 924
    else if r == 255
    then 376
    else if r == 305
    then b'I'
    else if r == 383
    then b'S'
    else if r == 962
    then 931
    else if r == 1169
    then 1168
    else r

-- unicode.IsSpace
unfoldable pub is_space_rune : ℕ → Bool
is_space_rune r =
    between 9 13 r
    || r == 32
    || r == 133
    || r == 160
    || r == 5760
    || between 8192 8202 r
    || r == 8232
    || r == 8233
    || r == 8239
    || r == 8287
    || r == 12288

-- strings.TrimSpace
unfoldable pub trim_runes : Bytes → Bytes
trim_runes = trim is_space_rune
