-- ===== src/Sui/Encode.antt =====
-- The encodings of internal/sui/client.go: byte vectors and dates as JSON-RPC pure values.
use Prim.Native.Char.{Char, code, nul, char}
use Prim.Native.String.{◌++◌}
use theme_park_nftengine.Prelude.{
  ℕ, zero, suc, ◌+◌, ◌-◌, ◌*◌, ◌/◌, ◌%◌, ◌^◌, String, Bool, List, [], ◌∷◌, map, ltb, leb, ◌==◌,
  ◌&&◌, ◌||◌, if◌then◌else◌, ◌≡◌, refl,
}

-- The numbers of the characters of a text.
abbrev pub codes : String → List ℕ
codes String.[] = []
codes (String.◌∷◌ c s) = code c ∷ codes s

-- The UTF-8 of a character, by its number.
unfoldable pub utf8_then : ℕ → List ℕ → List ℕ
utf8_then n rest =
    if ltb n 128
    then n ∷ rest
    else if ltb n 2048
    then (192 + n / 64) ∷ (128 + n % 64) ∷ rest
    else if ltb n 65536
    then (224 + n / 4096) ∷ (128 + n / 64 % 64) ∷ (128 + n % 64) ∷ rest
    else (240 + n / 262144) ∷ (128 + n / 4096 % 64) ∷ (128 + n / 64 % 64) ∷ (128 + n % 64) ∷ rest

-- `[]byte(s)`
unfoldable pub bytes_of : String → List ℕ
unfolding utf8_then
bytes_of String.[] = []
bytes_of (String.◌∷◌ c s) = utf8_then (code c) (bytes_of s)

-- A hexadecimal digit.
unfoldable pub hex_digit : ℕ → Char
hex_digit zero = char 48 tt
hex_digit (suc zero) = char 49 tt
hex_digit (suc (suc zero)) = char 50 tt
hex_digit (suc (suc (suc zero))) = char 51 tt
hex_digit (suc (suc (suc (suc zero)))) = char 52 tt
hex_digit (suc (suc (suc (suc (suc zero))))) = char 53 tt
hex_digit (suc (suc (suc (suc (suc (suc zero)))))) = char 54 tt
hex_digit (suc (suc (suc (suc (suc (suc (suc zero))))))) = char 55 tt
hex_digit (suc (suc (suc (suc (suc (suc (suc (suc zero)))))))) = char 56 tt
hex_digit (suc (suc (suc (suc (suc (suc (suc (suc (suc zero))))))))) = char 57 tt
hex_digit (suc (suc (suc (suc (suc (suc (suc (suc (suc (suc zero)))))))))) = char 97 tt
hex_digit (suc (suc (suc (suc (suc (suc (suc (suc (suc (suc (suc zero))))))))))) = char 98 tt
hex_digit (suc (suc (suc (suc (suc (suc (suc (suc (suc (suc (suc (suc zero)))))))))))) = char 99 tt
hex_digit (suc (suc (suc (suc (suc (suc (suc (suc (suc (suc (suc (suc (suc zero))))))))))))) =
    char 100 tt
hex_digit (suc (suc (suc (suc (suc (suc (suc (suc (suc (suc (suc (suc (suc (suc zero)))))))))))))) =
    char 101 tt
hex_digit
      (suc
        (suc (suc (suc (suc (suc (suc (suc (suc (suc (suc (suc (suc (suc (suc zero))))))))))))))) =
    char 102 tt
hex_digit _ = nul

-- `hex.EncodeToString`
unfoldable pub hex_of : List ℕ → String
unfolding hex_digit
hex_of [] = ""
hex_of (b ∷ bs) = String.◌∷◌ (hex_digit (b / 16)) (String.◌∷◌ (hex_digit (b % 16)) (hex_of bs))

unfoldable pub encode_bytes_vec : List String → List String
encode_bytes_vec xs = map (λ s. "0x" ++ hex_of (bytes_of s)) xs

abbrev is_digit : ℕ → Bool
is_digit c = leb 48 c && leb c 57

-- `strings.ReplaceAll(date, "-", "")`, on the characters.
without_dashes : List ℕ → List ℕ
without_dashes [] = []
without_dashes (c ∷ cs) = if c == 45 then without_dashes cs else c ∷ without_dashes cs

-- `isSpace` of the package `fmt`, without the line feed, which ends a scan.
is_space : ℕ → Bool
is_space c =
    c == 9
    || (leb 11 c && leb c 13)
    || c == 32
    || c == 133
    || c == 160
    || c == 5760
    || (leb 8192 c && leb c 8202)
    || c == 8232
    || c == 8233
    || c == 8239
    || c == 8287
    || c == 12288

skip_spaces : List ℕ → List ℕ
unfolding is_space
skip_spaces [] = []
skip_spaces (c ∷ cs) = if is_space c then skip_spaces cs else c ∷ cs

-- The value of the digits at the front, after `n`.
digits_from : ℕ → List ℕ → ℕ
digits_from n [] = n
digits_from n (c ∷ cs) = if is_digit c then digits_from (n * 10 + (c - 48)) cs else n

-- `Sscanf("%d")` into a uint64: 0 stands for an error, as where no digit is there or 64 bits do not hold
-- the value.
scan_u64 : List ℕ → ℕ
unfolding skip_spaces digits_from
scan_u64 cs = let n = digits_from 0 (skip_spaces cs) in if ltb n (2 ^ 64) then n else 0

unfoldable pub to_date_u64 : String → ℕ
unfolding without_dashes scan_u64
to_date_u64 date = scan_u64 (without_dashes (codes date))

-- `strconv.FormatUint(d, 16)`; a number has fewer digits than it counts.
hex_from : ℕ → ℕ → String → String
unfolding hex_digit
hex_from zero n acc = acc
hex_from (suc fuel) n acc =
    let shown = String.◌∷◌ (hex_digit (n % 16)) acc in
    let rest = hex_from fuel (n / 16) shown in if ltb n 16 then shown else rest

unfoldable pub to_date_hex : String → String
unfolding hex_from to_date_u64
to_date_hex date = let d = to_date_u64 date in "0x" ++ hex_from (suc d) d ""

date_with_dashes : to_date_u64 "2024-02-29" ≡ 20240229
unfolding to_date_u64
date_with_dashes = refl

no_date : to_date_u64 "soon" ≡ 0
unfolding to_date_u64
no_date = refl

vector_of_text : encode_bytes_vec ("aé" ∷ []) ≡ "0x61c3a9" ∷ []
unfolding encode_bytes_vec bytes_of hex_of
vector_of_text = refl

date_as_hex : to_date_hex "2024-02-29" ≡ "0x134d765"
unfolding to_date_hex
date_as_hex = refl
