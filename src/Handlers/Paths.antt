-- ===== src/Handlers/Paths.antt =====
-- internal/handler/paths.go: names of folders and files. A Go string is its bytes.
use dist_task_queue.Prelude.{
  ℕ, ◌≤◌, ◌<◌, ◌≡◌, Bool, true, false, ◌&&◌, ◌||◌, not, List, [], ◌∷◌, ◌++◌,
}
use dist_task_queue.Prelude.Tests.{Bytes, ltb, ◌==◌, if◌then◌else◌}
use dist_task_queue.Prelude.Lists.{length, take, All}

-- What the packages strings and unicode do: `runes` is `range` over a string, `encode` WriteRune.
pub record Unicode : Type 0 where
  pub runes : Bytes → List ℕ
  pub encode : ℕ → Bytes
  pub trim_space : Bytes → Bytes
  pub to_lower : Bytes → Bytes
  pub is_space : ℕ → Bool
  pub is_letter : ℕ → Bool
  pub is_digit : ℕ → Bool
  -- UTF-8: an ASCII rune is its byte, another one has no byte under 128.
  pub encode_ascii : (r : ℕ) → r < 128 → encode r ≡ r ∷ []
  pub encode_wide : (r : ℕ) → 128 ≤ r → All (λ b. 128 ≤ b) (encode r)

-- 0, '/' and '\'.
unfoldable pub is_separator : ℕ → Bool
is_separator r = r == 0 || r == b'/' || r == 92

abbrev pub is_empty : Bytes → Bool
is_empty [] = true
is_empty (c ∷ s) = false

-- strings.Trim with an ASCII cutset.
unfoldable pub trim_left : (ℕ → Bool) → Bytes → Bytes
trim_left p [] = []
trim_left p (c ∷ s) = let rest = trim_left p s in if p c then rest else c ∷ s

abbrev pub cons_unless : Bool → ℕ → Bytes → Bytes
cons_unless cut c (d ∷ s) = c ∷ d ∷ s
cons_unless true c [] = []
cons_unless false c [] = c ∷ []

unfoldable pub trim_right : (ℕ → Bool) → Bytes → Bytes
trim_right p [] = []
trim_right p (c ∷ s) = cons_unless (p c) c (trim_right p s)

abbrev pub trim_set : (ℕ → Bool) → Bytes → Bytes
trim_set p s = trim_right p (trim_left p s)

-- strings.Contains with "..".
unfoldable pub has_dots : Bytes → Bool
has_dots [] = false
has_dots (c ∷ []) = false
has_dots (c ∷ d ∷ s) = (c == b'.' && d == b'.') || has_dots (d ∷ s)

-- strings.ReplaceAll of ".." by "-"; `held` says that a dot stands before the text.
abbrev pub put_dots : Bool → Bool → ℕ → Bytes → Bytes
put_dots true true c rest = b'-' ∷ rest
put_dots true false c rest = b'.' ∷ c ∷ rest
put_dots false true c rest = rest
put_dots false false c rest = c ∷ rest

unfoldable pub replace_dots : Bool → Bytes → Bytes
replace_dots false [] = []
replace_dots true [] = b'.' ∷ []
replace_dots held (c ∷ s) = put_dots held (c == b'.') c (replace_dots ((c == b'.') && not held) s)

-- The cutset ". -" and the cutset ".-_".
abbrev pub in_name_cutset : ℕ → Bool
in_name_cutset c = c == b'.' || c == b' ' || c == b'-'

abbrev pub in_subject_cutset : ℕ → Bool
in_subject_cutset c = c == b'.' || c == b'-' || c == b'_'

-- "unnamed"
abbrev pub unnamed : Bytes
unnamed = b'u' ∷ b'n' ∷ b'n' ∷ b'a' ∷ b'm' ∷ b'e' ∷ b'd' ∷ []

-- "(no subject)"
abbrev pub no_subject : Bytes
no_subject = b'(' ∷ b'n' ∷ b'o' ∷ b' ' ∷ b's' ∷ b'u' ∷ b'b' ∷ b'j' ∷ b'e' ∷ b'c' ∷ b't' ∷ b')' ∷ []

abbrev pub max_filename_len : ℕ
max_filename_len = 200

abbrev pub max_subject_folder_len : ℕ
max_subject_folder_len = 80

abbrev pub or_text : Bytes → Bytes → Bytes
or_text default [] = default
or_text default (c ∷ s) = c ∷ s

-- A text cut to at most n bytes.
abbrev pub cut_at : ℕ → Bytes → Bytes
cut_at n s = if ltb n (length s) then take n s else s

module _ (u : Unicode) where
  -- A rune that is written once for a run of it, or a rune of its own.
  abbrev pub put_rune : Bool → Bool → Bytes → ℕ → Bytes → Bytes
  put_rune true true dash r rest = rest
  put_rune true false dash r rest = dash ++ rest
  put_rune false last dash r rest = u.encode r ++ rest

  -- The loop of SanitizeFilename; `last` is lastDash.
  unfoldable pub dashed : Bool → List ℕ → Bytes
  dashed last [] = []
  dashed last (r ∷ rs) = put_rune (is_separator r) last (b'-' ∷ []) r (dashed (is_separator r) rs)

  abbrev pub without_dots : Bytes → Bytes
  without_dots out = if has_dots out then trim_set in_name_cutset (replace_dots false out) else out

  abbrev pub trimmed_name : Bytes → Bytes
  trimmed_name name = trim_set in_name_cutset (dashed false (u.runes name))

  abbrev pub sanitize_trimmed : Bytes → Bytes
  sanitize_trimmed [] = unnamed
  sanitize_trimmed (c ∷ s) =
      cut_at max_filename_len (or_text unnamed (without_dots (trimmed_name (c ∷ s))))

  unfoldable pub sanitize_filename : Bytes → Bytes
  sanitize_filename name = sanitize_trimmed (u.trim_space name)

  -- The loop of cleanSubject; `last` is lastSpace.
  unfoldable pub spaced : Bool → List ℕ → Bytes
  spaced last [] = []
  spaced last (r ∷ rs) =
      put_rune (is_separator r || u.is_space r) last (b' ' ∷ []) r
        (spaced (is_separator r || u.is_space r) rs)

  -- Only a text that is too long is trimmed again.
  abbrev pub cut_subject : Bytes → Bytes
  cut_subject [] = no_subject
  cut_subject (c ∷ s) =
      if ltb max_subject_folder_len (length (c ∷ s))
      then u.trim_space (take max_subject_folder_len (c ∷ s))
      else c ∷ s

  abbrev pub clean_trimmed : Bytes → Bytes
  clean_trimmed [] = no_subject
  clean_trimmed (c ∷ s) =
      cut_subject (trim_set in_subject_cutset (u.trim_space (spaced false (u.runes (c ∷ s)))))

  unfoldable pub clean_subject : Bytes → Bytes
  clean_subject s = clean_trimmed (u.trim_space s)
