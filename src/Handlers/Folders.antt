-- ===== src/Handlers/Folders.antt =====
-- internal/handler/paths.go: the folders of an email, and the slugs of older callers.
use dist_task_queue.Prelude.{
  ℕ, zero, suc, ◌-◌, Bool, true, false, ◌||◌, Option, none, some, List, [], ◌∷◌, ◌++◌,
}
use dist_task_queue.Prelude.Tests.{Bytes, ltb, ◌==◌, if◌then◌else◌}
use dist_task_queue.Prelude.Lists.{length, take}
use dist_task_queue.Prelude.Decimal.{format_uint}
use dist_task_queue.Store.Types.{Time}
use dist_task_queue.Handlers.Paths.{Unicode, is_empty, or_text, put_rune, trim_right, clean_subject}
use dist_task_queue.Handlers.Words.{unknown_sender, dash_between, untitled, unknown_word}

-- The methods of time.Time on Time.UTC; the month and the weekday by their names.
pub record Calendar : Type 0 where
  pub year : Time → ℕ
  pub month : Time → Bytes
  pub day : Time → ℕ
  pub weekday : Time → Bytes
  pub hour : Time → ℕ
  pub minute : Time → ℕ

unfoldable pub zeros : ℕ → Bytes
zeros zero = []
zeros (suc n) = b'0' ∷ zeros n

-- The verb %0nd of fmt.
unfoldable pub padded : ℕ → ℕ → Bytes
padded n x = zeros (n - length (format_uint x)) ++ format_uint x

unfoldable pub date_tree_folders : Calendar → Time → List Bytes
date_tree_folders c t =
    padded 4 (c.year t)
    ∷ (c.month t ++ b' ' ∷ padded 4 (c.year t))
    ∷ (format_uint (c.day t)
        ++ b' '
          ∷ (c.month t ++ b' ' ∷ (padded 4 (c.year t) ++ b' ' ∷ b'(' ∷ (c.weekday t ++ b')' ∷ []))))
    ∷ []

unfoldable pub email_folder_name : Unicode → Calendar → Time → Bytes → Bytes → Bytes
email_folder_name u c t subject from_email =
    clean_subject u subject
    ++ (dash_between
        ++ (or_text unknown_sender (u.trim_space from_email)
            ++ (b' '
                ∷ b'('
                ∷ (padded 2 (c.hour t) ++ b':' ∷ (padded 2 (c.minute t) ++ b')' ∷ [])))))

-- The cutset "-".
abbrev pub in_dash_cutset : ℕ → Bool
in_dash_cutset c = c == b'-'

abbrev pub max_slug_len : ℕ
max_slug_len = 40

-- strings.ToLower and strings.TrimSpace are parameters; a slug is cut to 40 bytes.
module _ (u : Unicode) where
  -- The loop of SubjectSlug; `last` is lastDash.
  unfoldable pub slugged : Bool → List ℕ → Bytes
  slugged last [] = []
  slugged last (r ∷ rs) = elim (u.is_letter r || u.is_digit r) [
    | true ↦ u.encode r ++ slugged false rs
    | false ↦ put_rune u true last (b'-' ∷ []) r (slugged true rs)
  ]

  abbrev pub cut_slug : Bytes → Bytes
  cut_slug [] = untitled
  cut_slug (c ∷ s) =
      if ltb max_slug_len (length (c ∷ s))
      then trim_right in_dash_cutset (take max_slug_len (c ∷ s))
      else c ∷ s

  abbrev pub slug_lower : Bytes → Bytes
  slug_lower [] = untitled
  slug_lower (c ∷ s) = cut_slug (trim_right in_dash_cutset (slugged true (u.runes (c ∷ s))))

  unfoldable pub subject_slug : Bytes → Bytes
  subject_slug s = slug_lower (u.to_lower (u.trim_space s))

  -- email[:at], where an '@' is.
  unfoldable pub before_at : Bytes → Option Bytes
  before_at [] = none
  before_at (c ∷ s) =
      let rest = before_at s in
      if c == b'@' then some [] else elim rest [ none ↦ none | some l ↦ some (c ∷ l) ]

  -- strings.ReplaceAll of one byte by '-', for '+' and for '.'.
  unfoldable pub dashes_for : Bytes → Bytes
  dashes_for [] = []
  dashes_for (c ∷ s) = (if c == b'+' || c == b'.' then b'-' else c) ∷ dashes_for s

  -- `at <= 0` is an '@' that is missing or comes first.
  abbrev pub slug_of_local : Bytes → Option Bytes → Bytes
  slug_of_local email none = subject_slug email
  slug_of_local email (some []) = subject_slug email
  slug_of_local email (some (c ∷ l)) = dashes_for (u.to_lower (c ∷ l))

  unfoldable pub from_slug : Bytes → Bytes
  from_slug email = if is_empty email then unknown_word else slug_of_local email (before_at email)
