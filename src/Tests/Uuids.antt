-- ===== src/Tests/Uuids.antt =====
-- UUIDs with a text form that can be read back.
use Prim.Native.String.{[], ◌∷◌}
use notifyx.Prelude.{ℕ, zero, suc, String, ◌≡◌, refl, ap, some}
use notifyx.Domain.{Uuid}
use notifyx.Dedup.{Uuids}

-- As many characters as the value.
abbrev pub text_of : Uuid → String
text_of zero = []
text_of (suc n) = "x" ∷ text_of n

abbrev pub count_of : String → Uuid
count_of [] = zero
count_of (c ∷ s) = suc (count_of s)

pub count_of-text_of : (n : ℕ) → count_of (text_of n) ≡ n
count_of-text_of zero = refl
count_of-text_of (suc n) = ap suc (count_of-text_of n)

abbrev pub counted : Uuids
counted = record {
  text_of = text_of;
  parse = λ s. some (count_of s);
  parse_error = λ s. s;
  parse-text_of = λ u. ap some (count_of-text_of u);
}
