-- ===== src/Glob.antt =====
-- internal/storage/memstore/pattern.go: the matcher of KEYS and SCAN.
pub mod Relation
pub mod Correct
use cache_pot.Prelude.{
  ℕ, zero, suc, Bool, true, false, ◌&&◌, ◌||◌, not, Option, none, some, [], ◌∷◌, Bytes, leb, ◌==◌,
  if◌then◌else◌, is_empty, length,
}

abbrev pub backslash : ℕ
backslash = 92

-- indexByte of `]` and the two slices there: the class, and the pattern behind it.
unfoldable pub split_class : Bytes → Option (Bytes × Bytes)
split_class [] = none
split_class (c ∷ p) =
    let rest = split_class p in
    if c == b']'
    then some ([], p)
    else elim rest [ none ↦ none | some (class, behind) ↦ some (c ∷ class, behind) ]

-- matchClass
unfoldable pub match_class : Bytes → ℕ → Bool
match_class [] c = false
match_class (x ∷ []) c = x == c
match_class (x ∷ y ∷ []) c = x == c || y == c
match_class (x ∷ d ∷ y ∷ class) c =
    let behind = match_class class c in
    let next = match_class (d ∷ y ∷ class) c in
    if d == b'-' then leb x c && leb c y || behind else x == c || next

-- The leading `^` of a class negates it.
abbrev pub accepts : Bytes → ℕ → Bool
accepts [] c = match_class [] c
accepts (x ∷ class) c = if x == b'^' then not (match_class class c) else match_class (x ∷ class) c

-- The inner loop on stars.
unfoldable pub drop_stars : Bytes → Bytes
drop_stars [] = []
drop_stars (x ∷ p) = let rest = drop_stars p in if x == b'*' then rest else x ∷ p

-- `for i := 0; i <= len(s); i++`: whether some suffix passes the test.
unfoldable pub any_suffix : (Bytes → Bool) → Bytes → Bool
any_suffix test [] = test []
any_suffix test (c ∷ s) = let later = any_suffix test s in if test (c ∷ s) then true else later

abbrev pub Rest : Type 0
Rest = Bytes → Bytes → Bool

-- The byte of the text must pass the test, and the loop goes on behind it.
abbrev pub one_byte : (ℕ → Bool) → (Bytes → Bool) → Bytes → Bool
one_byte test rest [] = false
one_byte test rest (c ∷ s) = if test c then rest s else false

abbrev pub star_step : Rest → Bytes → Bytes → Bool
star_step rest [] s = true
star_step rest p s = any_suffix (rest p) s

abbrev pub class_step : Rest → Bytes → Option (Bytes × Bytes) → Bytes → Bool
class_step rest p none = one_byte (λ c. c == b'[') (rest p)
class_step rest p (some (class, behind)) = one_byte (accepts class) (rest behind)

abbrev pub escape_step : Rest → Bytes → Bytes → Bool
escape_step rest [] = one_byte (λ c. c == backslash) (rest [])
escape_step rest (x ∷ p) = one_byte (λ c. c == x) (rest p)

-- One round of globMatchBytes; `rest` is what the loop or the recursive call does next.
unfoldable pub glob_step : Rest → Bytes → Bytes → Bool
glob_step rest [] s = is_empty s
glob_step rest (x ∷ p) s =
    if x == b'*'
    then star_step rest (drop_stars p) s
    else if x == b'?'
    then one_byte (λ c. true) (rest p) s
    else if x == b'['
    then class_step rest p (split_class p) s
    else if x == backslash
    then escape_step rest p s
    else one_byte (λ c. c == x) (rest p) s

-- Each round takes at least one byte off the pattern.
unfoldable pub glob_loop : ℕ → Rest
glob_loop zero p s = false
glob_loop (suc f) p s = glob_step (glob_loop f) p s

-- globMatch
unfoldable pub glob_match : Rest
unfolding glob_loop glob_step split_class match_class drop_stars any_suffix
glob_match pattern s = glob_loop (suc (length pattern)) pattern s
