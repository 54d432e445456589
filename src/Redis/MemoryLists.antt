-- ===== src/Redis/MemoryLists.antt =====
-- Lists in memory: a value of the interface, which shows that its laws can be met.
use notifyx.Prelude.{
  ℕ, ◌*◌, ◌≡◌, refl, String, true, ◌&&◌, Option, none, some, List, [], ◌∷◌, ◌++◌, arith,
  if◌then◌else◌, str_eq,
}
use notifyx.Redis.Sets.{second, is_over, left_after}
use notifyx.Redis.Lists.{RedisLists, has_rows}

pub record MemoryLists : Type 0 where
  pub rows : String → List String
  pub left : String → Option ℕ

abbrev pub empty_lists : MemoryLists
empty_lists = record { rows = λ k. []; left = λ k. none }

abbrev pub append : String → String → MemoryLists → MemoryLists
append k v s = record s { rows = λ j. if str_eq k j then s.rows j ++ v ∷ [] else s.rows j }

abbrev pub keep_rows : String → ℕ → MemoryLists → MemoryLists
keep_rows k n s = record s {
  left = λ j. if str_eq k j && has_rows (s.rows k) then some (n * second) else s.left j;
}

abbrev pub clear_rows : String → MemoryLists → MemoryLists
clear_rows k s = record {
  rows = λ j. if str_eq k j then [] else s.rows j;
  left = λ j. if str_eq k j then none else s.left j;
}

abbrev pub wait_rows : ℕ → MemoryLists → MemoryLists
wait_rows d s = record {
  rows = λ j. if is_over d (s.left j) then [] else s.rows j;
  left = λ j. left_after d (s.left j);
}

pub left-keep_rows :
    (s : MemoryLists) (k : String) (n : ℕ) (j : String)
    → has_rows (s.rows k) ≡ true
    → (keep_rows k n s).left j ≡ (if str_eq k j then some (n * second) else s.left j)
left-keep_rows s k n j h = rw h (ground arith)

abbrev pub memory_lists : RedisLists MemoryLists
memory_lists = record {
  lrange = λ s k. s.rows k;
  ttl = λ s k. s.left k;
  rpush = append;
  expire = keep_rows;
  del = clear_rows;
  pass = wait_rows;
  lrange-rpush = λ s k v j. refl;
  lrange-expire = λ s k n j h. refl;
  lrange-del = λ s k j. refl;
  lrange-pass = λ s d j. refl;
  ttl-expire = λ s k n j h p. left-keep_rows s k n j h;
  ttl-pass = λ s d j. refl;
}
