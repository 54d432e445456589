-- ===== src/Template.antt =====
-- backend/internal/template/render.go: {{variable}} placeholders. The regular expression
-- {{\s*([a-zA-Z0-9_]+)\s*}} is matched by hand: its three repetitions run over disjoint classes of
-- characters, so the greedy match is the only one.
pub mod Laws
use Prim.Native.Char.{Char, code}
use Prim.Native.String.{[], ◌∷◌}
use notifyx.Prelude.{
  ℕ, zero, suc, ◌+◌, String, ◌<>◌, ◌≡◌, refl, Bool, true, false, ◌&&◌, ◌||◌, Option, none, some,
  leb, ◌==◌, if◌then◌else◌, str_eq, List,
}

abbrev pub Vars : Type 0
Vars = List (String × String)

-- vars[key]; the first entry is the one that the map holds.
unfoldable pub value_of : Vars → String → Option String
value_of List.[] key = none
value_of (List.◌∷◌ (k, v) vars) key = if str_eq k key then some v else value_of vars key

-- \s
unfoldable pub is_space : ℕ → Bool
is_space c = c == 32 || (leb 9 c && leb c 13 && (if c == 11 then false else true))

-- [a-zA-Z0-9_]
unfoldable pub is_word : ℕ → Bool
is_word c =
    (leb b'a' c && leb c b'z')
    || (leb b'A' c && leb c b'Z')
    || (leb b'0' c && leb c b'9')
    || c == b'_'

-- A match: its key, and how many characters it has.
pub record Match : Type 0 where
  pub key : String
  pub size : ℕ

abbrev pub longer : Option Match → Option Match
longer none = none
longer (some m) = some (record m { size = suc m.size })

abbrev pub with_char : Char → Option Match → Option Match
with_char c none = none
with_char c (some m) = some (record { key = c ∷ m.key; size = suc m.size })

-- }}
unfoldable pub match_close : String → Option Match
match_close (c ∷ d ∷ s) =
    if code c == b'}' && code d == b'}' then some (record { key = []; size = 2 }) else none
match_close _ = none

-- \s*}}
unfoldable pub match_tail : String → Option Match
unfolding match_close is_space
match_tail [] = none
match_tail (c ∷ s) =
    let rest = longer (match_tail s) in if is_space (code c) then rest else match_close (c ∷ s)

-- [a-zA-Z0-9_]*\s*}}
unfoldable pub match_word : String → Option Match
unfolding match_tail is_word
match_word [] = none
match_word (c ∷ s) =
    let rest = with_char c (match_word s) in if is_word (code c) then rest else match_tail (c ∷ s)

-- \s*[a-zA-Z0-9_]+\s*}}
unfoldable pub match_inside : String → Option Match
unfolding match_word
match_inside [] = none
match_inside (c ∷ s) =
    let rest = longer (match_inside s) in
    if is_space (code c) then rest else if is_word (code c) then match_word (c ∷ s) else none

-- The whole placeholder at the start of the text.
unfoldable pub match_placeholder : String → Option Match
unfolding match_inside
match_placeholder (c ∷ d ∷ s) =
    if code c == b'{' && code d == b'{' then longer (longer (match_inside s)) else none
match_placeholder _ = none

prefix : ℕ → String → String
prefix zero s = []
prefix (suc n) [] = []
prefix (suc n) (c ∷ s) = c ∷ prefix n s

-- The function given to ReplaceAllStringFunc: a placeholder with no value stays as it is.
unfoldable pub replacement : Vars → String → Match → String
unfolding value_of prefix
replacement vars s m = elim (value_of vars m.key) [ none ↦ prefix m.size s | some v ↦ v ]

-- ReplaceAllStringFunc: `skip` characters belong to a match that is already replaced.
unfoldable pub replace_from : Vars → ℕ → String → String
unfolding match_placeholder replacement
replace_from vars skip [] = []
replace_from vars (suc n) (c ∷ s) = replace_from vars n s
replace_from vars zero (c ∷ s) = elim (match_placeholder (c ∷ s)) [
  | none ↦ c ∷ replace_from vars zero s
  | some m ↦ elim m.size [
    | zero ↦ c ∷ replace_from vars zero s
    | suc k ↦ replacement vars (c ∷ s) m <> replace_from vars k s
  ]
]

abbrev is_empty : Vars → Bool
is_empty List.[] = true
is_empty (List.◌∷◌ v vars) = false

unfoldable pub render : String → Vars → String
unfolding replace_from
render text vars = if is_empty vars then text else replace_from vars zero text
