-- ===== src/Redis/MemorySets.antt =====
-- Sorted sets in memory: a value of the interface, which shows that its laws can be met.
use notifyx.Prelude.{
  ℕ, suc, ◌*◌, ◌<◌, ◌≡◌, refl, ◌⊎◌, inl, inr, String, Bool, true, false, ◌&&◌, Option, none, some,
  List, [], ◌∷◌, arith, leb, if◌then◌else◌, str_eq, str_eq_iff, Bool-cases, not,
}
use notifyx.Redis.Sets.{RedisSets, second, above, is_over, left_after}

abbrev Entries : Type 0
Entries = List (ℕ × String)

pub record MemorySets : Type 0 where
  pub entries : String → Entries
  pub left : String → Option ℕ

abbrev pub empty_sets : MemorySets
empty_sets = record { entries = λ k. []; left = λ k. none }

abbrev count_from : ℕ → Entries → ℕ
count_from lo [] = 0
count_from lo ((score, m) ∷ l) =
    let rest = count_from lo l in if leb lo score then suc rest else rest

abbrev score_of : String → Entries → Option ℕ
score_of m [] = none
score_of m ((score, m') ∷ l) = if str_eq m' m then some score else score_of m l

abbrev is_up_to : Option ℕ → ℕ → Bool
is_up_to none score = false
is_up_to (some hi) score = leb score hi

abbrev drop_up_to : Option ℕ → Entries → Entries
drop_up_to hi [] = []
drop_up_to hi ((score, m) ∷ l) =
    let rest = drop_up_to hi l in if is_up_to hi score then rest else (score, m) ∷ rest

abbrev without : String → Entries → Entries
without m [] = []
without m ((score, m') ∷ l) =
    let rest = without m l in if str_eq m' m then rest else (score, m') ∷ rest

abbrev is_empty : Entries → Bool
is_empty [] = true
is_empty (x ∷ l) = false

count_from-drop_up_to :
    (hi : Option ℕ) (lo : ℕ) (l : Entries)
    → count_from lo (drop_up_to hi l) ≡ count_from (above hi lo) l
count_from-drop_up_to hi lo [] = refl
count_from-drop_up_to none lo ((score, m) ∷ l) = ground (arith, count_from-drop_up_to none lo l)
count_from-drop_up_to (some h) lo ((score, m) ∷ l) =
    ground (arith, count_from-drop_up_to (some h) lo l)

without_absent : (m : String) (l : Entries) → score_of m l ≡ none → without m l ≡ l
without_absent m [] h = refl
without_absent m ((score, m') ∷ l) h = ground (arith, without_absent m l)

score_of-drop_up_to :
    (hi : Option ℕ) (m : String) (l : Entries)
    → score_of m l ≡ none
    → score_of m (drop_up_to hi l) ≡ none
score_of-drop_up_to hi m [] h = refl
score_of-drop_up_to none m ((score, m') ∷ l) h = ground (arith, score_of-drop_up_to none m l)
score_of-drop_up_to (some t) m ((score, m') ∷ l) h =
    ground (arith, score_of-drop_up_to (some t) m l)

score_of-without :
    (m m' : String) (l : Entries) → str_eq m m' ≡ false → score_of m' (without m l) ≡ score_of m' l
score_of-without m m' [] h = refl
score_of-without m m' ((score, x) ∷ l) h =
    ground (arith, score_of-without m m' l h, str_eq_iff x m, str_eq_iff x m', str_eq_iff m m')

count_from_pos : (l : Entries) → 0 < count_from 0 l → is_empty l ≡ false
count_from_pos [] h = absurd (omega arith)
count_from_pos (x ∷ l) h = refl

abbrev trim : String → Option ℕ → MemorySets → MemorySets
trim k hi s = record {
  entries = λ j. if str_eq k j then drop_up_to hi (s.entries j) else s.entries j;
  left = λ j. if str_eq k j && is_empty (drop_up_to hi (s.entries j)) then none else s.left j;
}

abbrev put : String → ℕ → String → MemorySets → MemorySets
put k score m s = record {
  entries = λ j. if str_eq k j then (score, m) ∷ without m (s.entries j) else s.entries j;
  left = s.left;
}

abbrev keep_for : String → ℕ → MemorySets → MemorySets
keep_for k n s = record {
  entries = s.entries;
  left = λ j. if str_eq k j && not (is_empty (s.entries k)) then some (n * second) else s.left j;
}

abbrev wait : ℕ → MemorySets → MemorySets
wait d s = record {
  entries = λ j. if is_over d (s.left j) then [] else s.entries j;
  left = λ j. left_after d (s.left j);
}

pub count_from-trim :
    (s : MemorySets) (k : String) (hi : Option ℕ) (j : String) (lo : ℕ)
    → count_from lo ((trim k hi s).entries j)
      ≡ (if str_eq k j then count_from (above hi lo) (s.entries j) else count_from lo (s.entries j))
count_from-trim s k hi j lo = elim (Bool-cases (str_eq k j)) [
  | inl e ↦ rw e (count_from-drop_up_to hi lo (s.entries j))
  | inr e ↦ rw e refl
]

pub count_from-put :
    (s : MemorySets) (k : String) (score : ℕ) (m j : String) (lo : ℕ)
    → score_of m (s.entries k) ≡ none
    → count_from lo ((put k score m s).entries j) ≡ (
        if str_eq k j && leb lo score
        then suc (count_from lo (s.entries j))
        else count_from lo (s.entries j))
count_from-put s k score m j lo h = ground (arith, without_absent m (s.entries k) h, str_eq_iff k j)

pub count_from-wait :
    (s : MemorySets) (d : ℕ) (j : String) (lo : ℕ)
    → count_from lo ((wait d s).entries j)
      ≡ (if is_over d (s.left j) then 0 else count_from lo (s.entries j))
count_from-wait s d j lo = ground arith

pub score_of-trim :
    (s : MemorySets) (k : String) (hi : Option ℕ) (j m : String)
    → score_of m (s.entries j) ≡ none
    → score_of m ((trim k hi s).entries j) ≡ none
score_of-trim s k hi j m h = ground (arith, score_of-drop_up_to hi m (s.entries j))

pub score_of-put :
    (s : MemorySets) (k : String) (score : ℕ) (m j m' : String)
    → str_eq k j && str_eq m m' ≡ false
    → score_of m' ((put k score m s).entries j) ≡ score_of m' (s.entries j)
score_of-put s k score m j m' h = ground (arith, score_of-without m m' (s.entries j))

pub score_of-wait :
    (s : MemorySets) (d : ℕ) (j m : String)
    → score_of m (s.entries j) ≡ none
    → score_of m ((wait d s).entries j) ≡ none
score_of-wait s d j m h = ground arith

pub left-trim :
    (s : MemorySets) (k : String) (hi : Option ℕ) (j : String)
    → ((trim k hi s).left j ≡ s.left j) ⊎ ((trim k hi s).left j ≡ none)
left-trim s k hi j = elim (Bool-cases (str_eq k j && is_empty (drop_up_to hi (s.entries j)))) [
  | inl e ↦ inr (rw e refl)
  | inr e ↦ inl (rw e refl)
]

pub left-keep_for :
    (s : MemorySets) (k : String) (n : ℕ) (j : String)
    → 0 < count_from 0 (s.entries k)
    → (keep_for k n s).left j ≡ (if str_eq k j then some (n * second) else s.left j)
left-keep_for s k n j h = rw (count_from_pos (s.entries k) h) (ground arith)

abbrev pub memory_sets : RedisSets MemorySets
memory_sets = record {
  zcount = λ s k lo. count_from lo (s.entries k);
  zscore = λ s k m. score_of m (s.entries k);
  ttl = λ s k. s.left k;
  zremrangebyscore = trim;
  zadd = put;
  expire = keep_for;
  pass = wait;
  zcount-zremrangebyscore = count_from-trim;
  zcount-zadd = count_from-put;
  zcount-expire = λ s k n j lo h. refl;
  zcount-pass = count_from-wait;
  zscore-zremrangebyscore = score_of-trim;
  zscore-zadd = score_of-put;
  zscore-expire = λ s k n j m h. refl;
  zscore-pass = score_of-wait;
  ttl-zremrangebyscore = left-trim;
  ttl-zadd = λ s k score m j. refl;
  ttl-expire = λ s k n j h p. left-keep_for s k n j h;
  ttl-pass = λ s d j. refl;
}
