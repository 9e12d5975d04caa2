-- ===== src/Prelude/Digest.antt =====
-- Texts that identities are made of: `str` of a number, `join`, a prefix, and SHA-256 as an interface.
-- Nothing is assumed of the digest: what holds below holds for every function in its place.
use Prim.Native.Nat.{ℕ, zero, suc, ◌/◌, ◌%◌}
use Prim.Native.String.{String, ◌++◌, slice}
use mathlib.Core.Path.{◌≡◌, refl}
use mathlib.Core.List.{List, [], ◌∷◌}
use text.Mathlib.TextLemmas.{append-eq-nil_iff}
use ai_backend_engineer_hand.Prelude.Tests.{if◌then◌else◌, ltb}
use ai_backend_engineer_hand.Prelude.Equality.{◌==◌, nat_eq}

-- `hashlib.sha256(text.encode("utf-8")).hexdigest()`.
pub record Sha256 : Type 0 where
  pub hex_digest : String → String
  -- `int.from_bytes(hashlib.sha256(text.encode("utf-8")).digest()[:8], "big")`.
  pub digest_prefix : String → ℕ

digit : ℕ → String
digit d =
    if d == 0
    then "0"
    else if d == 1
    then "1"
    else if d == 2
    then "2"
    else if d == 3
    then "3"
    else if d == 4
    then "4"
    else if d == 5
    then "5"
    else if d == 6
    then "6"
    else if d == 7
    then "7"
    else if d == 8
    then "8"
    else "9"

-- The decimal digits of `n` before `rest`; `n + 1` rounds are more than there are digits.
digits_before : ℕ → ℕ → String → String
digits_before zero n rest = rest
digits_before (suc rounds) n rest =
    let more = digits_before rounds (n / 10) (digit (n % 10) ++ rest) in
    if ltb n 10 then digit n ++ rest else more

-- `str(n)` of an integer that is not negative.
unfoldable pub str : ℕ → String
unfolding digits_before digit
str n = digits_before (suc n) n ""

-- `separator.join(parts)`.
unfoldable pub join : String → List String → String
join separator [] = ""
join separator (part ∷ []) = part
join separator (part ∷ next ∷ parts) = part ++ (separator ++ join separator (next ∷ parts))

-- `prefix + text`.
unfoldable pub prefixed : String → String → String
prefixed start text = start ++ text

-- `text[:n]`, for a text of ASCII characters.
unfoldable pub first_chars : ℕ → String → String
first_chars n text = slice text 0 n

-- A text that begins with a text that is not empty is not empty.
pub prefixed-ne_empty : (start text : String) → (start ≡ "" → ⊥) → prefixed start text ≡ "" → ⊥
unfolding prefixed
prefixed-ne_empty start text h e = h (append-eq-nil_iff.0 e).0

join_three : join ":" ("a" ∷ str 120 ∷ "c" ∷ []) ≡ "a:120:c"
unfolding join str
join_three = refl
