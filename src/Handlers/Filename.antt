-- ===== src/Handlers/Filename.antt =====
-- SanitizeFilename of internal/handler/paths.go against one component of a path.
use dist_task_queue.Prelude.{
  ℕ, zero, suc, ◌≤◌, ◌≡◌, ◌≢◌, refl, ap, Bool, true, false, ◌&&◌, ◌||◌, not, List, [], ◌∷◌, arith,
  inl, inr,
}
use dist_task_queue.Prelude.Tests.{Bytes, ltb, ◌==◌, Bool-cases}
use dist_task_queue.Prelude.Lists.{length, take, All, All-append, length-take}
use dist_task_queue.Services.{IsName}
use dist_task_queue.Handlers.Paths.{
  Unicode, is_separator, trim_left, trim_right, trim_set, cons_unless, has_dots, put_dots,
  replace_dots, in_name_cutset, put_rune, dashed, or_text, cut_at, unnamed, without_dots,
  trimmed_name, sanitize_trimmed, sanitize_filename,
}

-- Bytes that are no separator of paths and not 0.
abbrev pub Plain : Bytes → Type 0
Plain = All λ b. is_separator b ≡ false

Plain-trim_left : (p : ℕ → Bool) (s : Bytes) → Plain s → Plain (trim_left p s)
unfolding trim_left
Plain-trim_left p [] h = tt
Plain-trim_left p (c ∷ s) (hc, hs) = elim (Bool-cases (p c)) [
  | inl cut ↦ rw cut (Plain-trim_left p s hs)
  | inr keep ↦ rw keep (hc, hs)
]

Plain-cons_unless :
    (b : Bool) (c : ℕ) (s : Bytes) → is_separator c ≡ false → Plain s → Plain (cons_unless b c s)
Plain-cons_unless b c (d ∷ s) hc hs = (hc, hs)
Plain-cons_unless true c [] hc hs = tt
Plain-cons_unless false c [] hc hs = (hc, tt)

Plain-trim_right : (p : ℕ → Bool) (s : Bytes) → Plain s → Plain (trim_right p s)
unfolding trim_right
Plain-trim_right p [] h = tt
Plain-trim_right p (c ∷ s) (hc, hs) =
    Plain-cons_unless (p c) c (trim_right p s) hc (Plain-trim_right p s hs)

Plain-trim_set : (p : ℕ → Bool) (s : Bytes) → Plain s → Plain (trim_set p s)
Plain-trim_set p s h = Plain-trim_right p (trim_left p s) (Plain-trim_left p s h)

Plain-put_dots :
    (held dot : Bool) (c : ℕ) (rest : Bytes)
    → is_separator c ≡ false
    → Plain rest
    → Plain (put_dots held dot c rest)
unfolding is_separator
Plain-put_dots true true c rest hc h = (refl, h)
Plain-put_dots true false c rest hc h = (refl, (hc, h))
Plain-put_dots false true c rest hc h = h
Plain-put_dots false false c rest hc h = (hc, h)

Plain-replace_dots : (held : Bool) (s : Bytes) → Plain s → Plain (replace_dots held s)
unfolding replace_dots is_separator
Plain-replace_dots false [] h = tt
Plain-replace_dots true [] h = (refl, tt)
Plain-replace_dots held (c ∷ s) (hc, hs) =
    Plain-put_dots held (c == b'.') c _ hc (Plain-replace_dots ((c == b'.') && not held) s hs)

wide-Plain : (s : Bytes) → All (λ b. 128 ≤ b) s → Plain s
unfolding is_separator
wide-Plain [] h = tt
wide-Plain (b ∷ s) (hb, hs) = (ground arith, wide-Plain s hs)

module _ (u : Unicode) where
  encode-Plain : (r : ℕ) → is_separator r ≡ false → Plain (u.encode r)
  encode-Plain r h = elim (Bool-cases (ltb r 128)) [
    | inl narrow ↦ rw (u.encode_ascii r (ground (arith, narrow))) (h, tt)
    | inr wide ↦ wide-Plain (u.encode r) (u.encode_wide r (ground (arith, wide)))
  ]

  put_rune-Plain :
      (sep last : Bool) (r : ℕ) (rest : Bytes)
      → is_separator r ≡ sep
      → Plain rest
      → Plain (put_rune u sep last (b'-' ∷ []) r rest)
  unfolding is_separator
  put_rune-Plain true true r rest e h = h
  put_rune-Plain true false r rest e h = (refl, h)
  put_rune-Plain false last r rest e h = All-append _ (u.encode r) rest (encode-Plain r e) h

  dashed-Plain : (last : Bool) (rs : List ℕ) → Plain (dashed u last rs)
  unfolding dashed
  dashed-Plain last [] = tt
  dashed-Plain last (r ∷ rs) =
      put_rune-Plain (is_separator r) last r _ refl (dashed-Plain (is_separator r) rs)

Plain-take : (n : ℕ) (s : Bytes) → Plain s → Plain (take n s)
Plain-take zero s h = tt
Plain-take (suc n) [] h = tt
Plain-take (suc n) (c ∷ s) (hc, hs) = (hc, Plain-take n s hs)

starts_dot : Bytes → Bool
starts_dot [] = false
starts_dot (c ∷ s) = c == b'.'

-- "..": a dot before a text that starts with one.
has_dots-cons : (c : ℕ) (s : Bytes) → has_dots (c ∷ s) ≡ ((c == b'.' && starts_dot s) || has_dots s)
unfolding has_dots starts_dot
has_dots-cons c [] = ground arith
has_dots-cons c (d ∷ s) = refl

no_dots_cons :
    (c : ℕ) (s : Bytes) → ((c == b'.') ≡ false) → has_dots s ≡ false → has_dots (c ∷ s) ≡ false
no_dots_cons c s hc h = rw (has_dots-cons c s, hc) h

no_dots_nil : has_dots [] ≡ false
unfolding has_dots
no_dots_nil = refl

no_dots_one : (c : ℕ) → has_dots (c ∷ []) ≡ false
unfolding has_dots
no_dots_one c = refl

replace_dots_no_dots : (held : Bool) (s : Bytes) → has_dots (replace_dots held s) ≡ false
unfolding replace_dots starts_dot
replace_dots_no_dots false [] = no_dots_nil
replace_dots_no_dots true [] = no_dots_one b'.'
replace_dots_no_dots true (c ∷ s) = elim (Bool-cases (c == b'.')) [
  | inl e ↦ rw e (no_dots_cons b'-' _ refl (replace_dots_no_dots false s))
  | inr e ↦ rw e (
      rw (has_dots-cons b'.' (c ∷ replace_dots false s), starts_dot, e)
        (no_dots_cons c _ e (replace_dots_no_dots false s)))
]
replace_dots_no_dots false (c ∷ s) = elim (Bool-cases (c == b'.')) [
  | inl e ↦ rw e (replace_dots_no_dots true s)
  | inr e ↦ rw e (no_dots_cons c _ e (replace_dots_no_dots false s))
]

no_dots_tail : (c : ℕ) (s : Bytes) → has_dots (c ∷ s) ≡ false → has_dots s ≡ false
no_dots_tail c s h = ground (arith, has_dots-cons c s, h)

no_dots-trim_left :
    (p : ℕ → Bool) (s : Bytes) → has_dots s ≡ false → has_dots (trim_left p s) ≡ false
unfolding trim_left
no_dots-trim_left p [] h = no_dots_nil
no_dots-trim_left p (c ∷ s) h = elim (Bool-cases (p c)) [
  | inl cut ↦ rw cut (no_dots-trim_left p s (no_dots_tail c s h))
  | inr keep ↦ rw keep h
]

-- A text that is cut at its end starts with a dot only if the whole one does.
abbrev Prefixed : Bytes → Bytes → Type 0
Prefixed t s =
    (starts_dot t ≡ true → starts_dot s ≡ true) × (has_dots s ≡ false → has_dots t ≡ false)

Prefixed-cons : (c : ℕ) (t s : Bytes) → Prefixed t s → Prefixed (c ∷ t) (c ∷ s)
unfolding starts_dot
Prefixed-cons c t s (hs, hd) =
    (λ e. e, λ h. ground (arith, has_dots-cons c s, has_dots-cons c t, h, hs, hd))

Prefixed-nil : (s : Bytes) → Prefixed [] s
unfolding starts_dot
Prefixed-nil s = (λ e. cc, λ h. no_dots_nil)

cons_unless-Prefixed :
    (b : Bool) (c : ℕ) (t s : Bytes) → Prefixed t s → Prefixed (cons_unless b c t) (c ∷ s)
cons_unless-Prefixed b c (d ∷ t) s h = Prefixed-cons c (d ∷ t) s h
cons_unless-Prefixed true c [] s h = Prefixed-nil (c ∷ s)
cons_unless-Prefixed false c [] s h = Prefixed-cons c [] s h

trim_right-Prefixed : (p : ℕ → Bool) (s : Bytes) → Prefixed (trim_right p s) s
unfolding trim_right
trim_right-Prefixed p [] = Prefixed-nil []
trim_right-Prefixed p (c ∷ s) =
    cons_unless-Prefixed (p c) c (trim_right p s) s (trim_right-Prefixed p s)

take-Prefixed : (n : ℕ) (s : Bytes) → Prefixed (take n s) s
take-Prefixed zero s = Prefixed-nil s
take-Prefixed (suc n) [] = Prefixed-nil []
take-Prefixed (suc n) (c ∷ s) = Prefixed-cons c (take n s) s (take-Prefixed n s)

no_dots-trim_set : (p : ℕ → Bool) (s : Bytes) → has_dots s ≡ false → has_dots (trim_set p s) ≡ false
no_dots-trim_set p s h = (trim_right-Prefixed p (trim_left p s)).1 (no_dots-trim_left p s h)

-- A name that is one component of a path: not empty, at most 200 bytes, no separator, no "..".
pub record Component (s : Bytes) : Type 0 where
  pub plain : Plain s
  pub no_dots : has_dots s ≡ false
  pub short : length s ≤ 200
  pub nonempty : 1 ≤ length s

cut-Component :
    (s : Bytes) → Plain s → has_dots s ≡ false → Component (cut_at 200 (or_text unnamed s))
unfolding is_separator has_dots
cut-Component [] h d = record {
  plain = (refl, (refl, (refl, (refl, (refl, (refl, (refl, tt)))))));
  no_dots = refl;
  short = omega arith;
  nonempty = omega arith;
}
cut-Component (c ∷ s) h d = elim (Bool-cases (ltb 200 (length (c ∷ s)))) [
  | inl long ↦ rw long (record {
    plain = Plain-take 200 (c ∷ s) h;
    no_dots = (take-Prefixed 200 (c ∷ s)).1 d;
    short = omega (arith, length-take 200 (c ∷ s));
    nonempty = omega (arith, length-take 200 (c ∷ s));
  })
  | inr fits ↦
      rw fits
        (record { plain = h; no_dots = d; short = ground (arith, fits); nonempty = omega arith })
]

module _ (u : Unicode) where
  without_dots_lem :
      (s : Bytes) → Plain s → Plain (without_dots u s) × (has_dots (without_dots u s) ≡ false)
  without_dots_lem s h = elim (Bool-cases (has_dots s)) [
    | inl dots ↦ rw dots (
      Plain-trim_set in_name_cutset (replace_dots false s) (Plain-replace_dots false s h),
      no_dots-trim_set in_name_cutset (replace_dots false s) (replace_dots_no_dots false s),
    )
    | inr none ↦ rw none (h, none)
  ]

  sanitize_trimmed-Component : (name : Bytes) → Component (sanitize_trimmed u name)
  sanitize_trimmed-Component [] = cut-Component [] tt no_dots_nil
  sanitize_trimmed-Component (c ∷ s) =
      let (plain, dots) =
        without_dots_lem (trimmed_name u (c ∷ s))
          (Plain-trim_set in_name_cutset _ (dashed-Plain u false (u.runes (c ∷ s)))) in
      cut-Component (without_dots u (trimmed_name u (c ∷ s))) plain dots

  -- SanitizeFilename gives a name of 1 to 200 bytes that holds no '/', no '\', no 0 and no "..", for
  -- every name.
  pub sanitize_filename-Component : (name : Bytes) → Component (sanitize_filename u name)
  unfolding sanitize_filename
  sanitize_filename-Component name = sanitize_trimmed-Component (u.trim_space name)

no_dot_left : (s : Bytes) → starts_dot (trim_left in_name_cutset s) ≡ false
unfolding trim_left starts_dot
no_dot_left [] = refl
no_dot_left (c ∷ s) = elim (Bool-cases (in_name_cutset c)) [
  | inl cut ↦ rw cut (no_dot_left s)
  | inr keep ↦ rw keep (ground (arith, keep))
]

no_dot_prefix : (t s : Bytes) → Prefixed t s → starts_dot s ≡ false → starts_dot t ≡ false
no_dot_prefix t s (h, d) hs = ground (arith, h, hs)

no_dot-trim_set : (s : Bytes) → starts_dot (trim_set in_name_cutset s) ≡ false
no_dot-trim_set s =
    no_dot_prefix _ (trim_left in_name_cutset s) (trim_right-Prefixed in_name_cutset _)
      (no_dot_left s)

no_dot-cut_at :
    (s : Bytes) → starts_dot s ≡ false → starts_dot (cut_at 200 (or_text unnamed s)) ≡ false
unfolding starts_dot
no_dot-cut_at [] h = refl
no_dot-cut_at (c ∷ s) h = elim (Bool-cases (ltb 200 (length (c ∷ s)))) [
  | inl long ↦ rw long h
  | inr fits ↦ rw fits h
]

module _ (u : Unicode) where
  no_dot-without_dots : (s : Bytes) → starts_dot s ≡ false → starts_dot (without_dots u s) ≡ false
  no_dot-without_dots s h = elim (Bool-cases (has_dots s)) [
    | inl dots ↦ rw dots (no_dot-trim_set (replace_dots false s))
    | inr none ↦ rw none h
  ]

  no_dot-sanitize_trimmed : (name : Bytes) → starts_dot (sanitize_trimmed u name) ≡ false
  unfolding starts_dot
  no_dot-sanitize_trimmed [] = refl
  no_dot-sanitize_trimmed (c ∷ s) = no_dot-cut_at (without_dots u (trimmed_name u (c ∷ s))) (
      no_dot-without_dots (trimmed_name u (c ∷ s))
        (no_dot-trim_set (dashed u false (u.runes (c ∷ s)))))

no_dot-ne : (s t : Bytes) → starts_dot s ≡ false → s ≢ b'.' ∷ t
unfolding starts_dot
no_dot-ne s t h x = let q = ap starts_dot x in ground (arith, h, q)

Plain-bytes : (s : Bytes) → Plain s → All (λ c. (c ≢ 0) × (c ≢ b'/')) s
unfolding is_separator
Plain-bytes [] h = tt
Plain-bytes (c ∷ s) (hc, hs) = ((ground (arith, hc), ground (arith, hc)), Plain-bytes s hs)

-- What SanitizeFilename gives is the name of a file in its directory.
pub sanitize_filename-IsName : (u : Unicode) (name : Bytes) → IsName (sanitize_filename u name)
unfolding sanitize_filename
sanitize_filename-IsName u name =
    let parts = sanitize_filename-Component u name in
    let dot = no_dot-sanitize_trimmed u (u.trim_space name) in
    (
      λ x. omega (arith, parts.nonempty, ap length x),
      no_dot-ne _ [] dot,
      no_dot-ne _ (b'.' ∷ []) dot,
      Plain-bytes _ parts.plain,
    )
