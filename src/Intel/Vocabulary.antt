-- ===== src/Intel/Vocabulary.antt =====
-- The live quiz (ScoringVocabulary of imageshield/intel/vocabulary.py): the parts that a weight cell
-- is read from. Keys and options are only compared: numbers.
use silver_invention.Prelude.{
  ℕ, Option, none, some, Bool, true, false, ◌&&◌, ◌||◌, List, [], ◌∷◌, if◌then◌else◌, ltb, ◌==◌,
}
use silver_invention.Prelude.Int.{ℤ}
use silver_invention.Prelude.Dict.{Dict, lookup}
pub mod Renames

pub record VocabQuestion : Type 0 where
  -- `type == "mutable"`
  pub is_mutable : Bool
  pub options : List ℕ
  pub deductions : Dict ℤ
  pub cap : Option ℤ

pub record Rename : Type 0 where
  pub release_no : ℕ
  pub question_key : ℕ
  pub old_option : ℕ
  pub new_option : ℕ

pub record ScoringVocabulary : Type 0 where
  pub questions : Dict VocabQuestion
  pub renamed : List Rename

abbrev pub mem : ℕ → List ℕ → Bool
mem x [] = false
mem x (y ∷ ys) = x == y || mem x ys

unfoldable pub question : ScoringVocabulary → ℕ → Option VocabQuestion
question v key = lookup key v.questions

-- The live deduction of an option of a question that is there.
unfoldable pub price : VocabQuestion → ℕ → Option ℤ
price q option = if mem option q.options then lookup option q.deductions else none

unfoldable pub deduction : ScoringVocabulary → ℕ → ℕ → Option ℤ
deduction v key option = elim (lookup key v.questions) [ none ↦ none | some q ↦ price q option ]

-- A rename of the question in a release after the one given.
abbrev pub is_later : ℕ → ℕ → Rename → Bool
is_later key after r = r.question_key == key && ltb after r.release_no

-- The releases with such renames, in order and once each: `sorted(by_release)`.
pub insert_release : ℕ → List ℕ → List ℕ
insert_release n [] = n ∷ []
insert_release n (m ∷ ms) =
    if n == m then m ∷ ms else if ltb n m then n ∷ (m ∷ ms) else m ∷ insert_release n ms

pub releases : ℕ → ℕ → List Rename → List ℕ
unfolding insert_release
releases key after [] = []
releases key after (r ∷ rs) =
    let rest = releases key after rs in
    if is_later key after r then insert_release r.release_no rest else rest

-- What one release's mapping holds for an option: the last entry wins.
pub renamed_in : ℕ → ℕ → ℕ → List Rename → Option ℕ
renamed_in key release option [] = none
renamed_in key release option (r ∷ rs) = elim (renamed_in key release option rs) [
  | some new ↦ some new
  | none ↦
      if r.question_key == key && r.release_no == release && r.old_option == option
      then some r.new_option
      else none
]

abbrev pub or_same : Option ℕ → ℕ → ℕ
or_same none current = current
or_same (some new) current = new

-- `current = by_release[release_no].get(current, current)`, release by release.
pub fold_from : ℕ → List Rename → List ℕ → ℕ → ℕ
fold_from key rs [] current = current
fold_from key rs (release ∷ rest) current =
    fold_from key rs rest (or_same (renamed_in key release current rs) current)

unfoldable pub fold_renames : ScoringVocabulary → ℕ → ℕ → ℕ → ℕ
unfolding releases renamed_in fold_from
fold_renames v key option after = fold_from key v.renamed (releases key after v.renamed) option

pub any_renamed : ℕ → ℕ → ℕ → List Rename → Bool
any_renamed key option after [] = false
any_renamed key option after (r ∷ rs) =
    (r.question_key == key && r.old_option == option && ltb after r.release_no)
    || any_renamed key option after rs

unfoldable pub renamed_away : ScoringVocabulary → ℕ → ℕ → ℕ → Bool
unfolding any_renamed
renamed_away v key option after = any_renamed key option after v.renamed
