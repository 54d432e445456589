-- ===== src/Redis/MemoryStrings.antt =====
-- Strings in memory: a value of the interface, which shows that its laws can be met.
use notifyx.Prelude.{
  ℕ, ◌*◌, ◌≡◌, refl, String, true, false, ◌&&◌, Option, none, some, arith, if◌then◌else◌, str_eq,
}
use notifyx.Redis.Sets.{second, is_over, left_after}
use notifyx.Redis.Strings.{RedisStrings, is_set}

pub record MemoryStrings : Type 0 where
  pub values : String → Option String
  pub left : String → Option ℕ

abbrev pub empty_strings : MemoryStrings
empty_strings = record { values = λ k. none; left = λ k. none }

abbrev claim : String → String → MemoryStrings → MemoryStrings
claim k v s = record {
  values =
      λ j. if is_set (s.values k) then s.values j else if str_eq k j then some v else s.values j;
  left = s.left;
}

abbrev keep_for : String → ℕ → MemoryStrings → MemoryStrings
keep_for k n s = record {
  values = s.values;
  left = λ j. if str_eq k j && is_set (s.values k) then some (n * second) else s.left j;
}

abbrev put : String → String → ℕ → MemoryStrings → MemoryStrings
put k v n s = record {
  values = λ j. if str_eq k j then some v else s.values j;
  left = λ j. if str_eq k j then some (n * second) else s.left j;
}

abbrev clear : String → MemoryStrings → MemoryStrings
clear k s = record {
  values = λ j. if str_eq k j then none else s.values j;
  left = λ j. if str_eq k j then none else s.left j;
}

abbrev wait : ℕ → MemoryStrings → MemoryStrings
wait d s = record {
  values = λ j. if is_over d (s.left j) then none else s.values j;
  left = λ j. left_after d (s.left j);
}

pub left-keep_for :
    (s : MemoryStrings) (k : String) (n : ℕ) (j : String)
    → is_set (s.values k) ≡ true
    → (keep_for k n s).left j ≡ (if str_eq k j then some (n * second) else s.left j)
left-keep_for s k n j h = rw h (ground arith)

pub left-clear :
    (s : MemoryStrings) (k j : String) → str_eq k j ≡ false → (clear k s).left j ≡ s.left j
left-clear s k j h = rw h refl

abbrev pub memory_strings : RedisStrings MemoryStrings
memory_strings = record {
  get = λ s k. s.values k;
  ttl = λ s k. s.left k;
  setnx = claim;
  expire = keep_for;
  setex = put;
  del = clear;
  pass = wait;
  get-setnx = λ s k v j. refl;
  get-expire = λ s k n j h. refl;
  get-del = λ s k j. refl;
  get-pass = λ s d j. refl;
  ttl-expire = λ s k n j h p. left-keep_for s k n j h;
  ttl-pass = λ s d j. refl;
  ttl-setnx = λ s k v j. refl;
  ttl-del = λ s k j h. left-clear s k j h;
  get-setex = λ s k v n j h. refl;
  ttl-setex = λ s k v n j h. refl;
}
