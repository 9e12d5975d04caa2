-- ===== src/Prelude/Samples.antt =====
-- A digest and a float arithmetic to run the code with: the text itself as its digest, and times in
-- whole milliseconds.
use Prim.Native.Nat.{ℕ, ◌+◌, ◌-◌, ◌*◌, ◌/◌}
use mathlib.Core.Path.{◌≡◌}
use mathlib.Core.Bool.{true, false}
use ai_backend_engineer_hand.Prelude.Tests.{ltb, leb}
use native.Mathlib.Omega.{arith}
use ai_backend_engineer_hand.Prelude.Errors.{ok, ok-injective}
use ai_backend_engineer_hand.Prelude.Digest.{Sha256}
use ai_backend_engineer_hand.Prelude.Floats.{Float, Clock}

instance abbrev pub text_digest : Sha256
text_digest = record { hex_digest = λ t. t; digest_prefix = λ t. 9223372036854775807 }

pub ltb-asymm : (a b : ℕ) → ltb a b ≡ true → ltb b a ≡ false
ltb-asymm a b h = ground arith

abbrev pub milliseconds : Float
milliseconds = record {
  F = ℕ;
  lt = ltb;
  le = leb;
  add = λ a b. a + b;
  sub = λ a b. a - b;
  mul = λ a b. a * b / 1000;
  ratio = λ a b. a * 1000 / b;
  is_finite = λ a. true;
  round_6 = λ a. a;
  mul_int = λ a n. ok (a * n);
  lt_asymm = ltb-asymm;
}

pub add_ms-ge : (t u x : ℕ) → leb 0 x ≡ true → ok (t + 1000 * x) ≡ ok u → leb t u ≡ true
add_ms-ge t u x h e = ground (arith, ok-injective e)

abbrev pub microseconds : Clock milliseconds
microseconds = record { add_seconds = λ t x. ok (t + 1000 * x); add_seconds-ge = add_ms-ge }
