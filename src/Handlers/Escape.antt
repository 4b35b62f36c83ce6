-- ===== src/Handlers/Escape.antt =====
-- htmlEscape of internal/handler/render.go.
use dist_task_queue.Prelude.{ℕ, ◌≡◌, ◌≢◌, refl, sym, [], ◌∷◌, ◌++◌, arith, ◌∙◌, ap}
use dist_task_queue.Prelude.Tests.{Bytes, ◌==◌, if◌then◌else◌}
use dist_task_queue.Prelude.Lists.{All, All-append}

-- What one byte becomes.
unfoldable pub escape_byte : ℕ → Bytes
escape_byte c =
    if c == b'<'
    then b'&' ∷ b'l' ∷ b't' ∷ b';' ∷ []
    else if c == b'>'
    then b'&' ∷ b'g' ∷ b't' ∷ b';' ∷ []
    else if c == b'&'
    then b'&' ∷ b'a' ∷ b'm' ∷ b'p' ∷ b';' ∷ []
    else if c == b'"'
    then b'&' ∷ b'q' ∷ b'u' ∷ b'o' ∷ b't' ∷ b';' ∷ []
    else c ∷ []

unfoldable pub html_escape : Bytes → Bytes
html_escape [] = []
html_escape (c ∷ s) = escape_byte c ++ html_escape s

-- A byte that opens or closes neither a tag nor an attribute in double quotes.
abbrev pub Inert : ℕ → Type 0
Inert c = (c ≢ b'<') × (c ≢ b'>') × (c ≢ b'"')

escape_byte-Inert : (c : ℕ) → All Inert (escape_byte c)
unfolding escape_byte
escape_byte-Inert c = ground arith

html_escape-Inert : (s : Bytes) → All Inert (html_escape s)
unfolding html_escape
html_escape-Inert [] = tt
html_escape-Inert (c ∷ s) =
    All-append Inert (escape_byte c) (html_escape s) (escape_byte-Inert c) (html_escape-Inert s)

-- The escapes of two bytes do not start alike.
escape_byte_apart :
    (c d : ℕ) (x y : Bytes) → escape_byte c ++ x ≡ escape_byte d ++ y → (c ≡ d) × (x ≡ y)
unfolding escape_byte
escape_byte_apart c d x y h = ground (arith, h)

escape_byte_nonempty : (d : ℕ) (x : Bytes) → [] ≢ escape_byte d ++ x
unfolding escape_byte
escape_byte_nonempty d x h = ground (arith, h)

-- What htmlEscape writes holds no '<', no '>' and no double quote, and no two texts are escaped alike.
pub html_escape_lem :
    (s : Bytes) → All Inert (html_escape s) × ((t : Bytes) → html_escape s ≡ html_escape t → s ≡ t)
unfolding html_escape
html_escape_lem s = (html_escape-Inert s, html_escape_inj s)
  where
    html_escape_inj : (s t : Bytes) → html_escape s ≡ html_escape t → s ≡ t
    html_escape_inj [] [] h = refl
    html_escape_inj [] (d ∷ t) h = absurd (escape_byte_nonempty d (html_escape t) h)
    html_escape_inj (c ∷ s) [] h = absurd (escape_byte_nonempty c (html_escape s) (sym h))
    html_escape_inj (c ∷ s) (d ∷ t) h =
        let (hc, hs) = escape_byte_apart c d (html_escape s) (html_escape t) h in
        ap (λ x. x ∷ s) hc ∙ ap (λ x. d ∷ x) (html_escape_inj s t hs)
