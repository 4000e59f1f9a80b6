-- ===== src/Transport/Quote.antt =====
-- internal/remote/dest.go: `ShellQuote` against the quoting rules of a POSIX shell.
use w17ctl.Base.{
  ℕ, Str, has_byte, codes, ◌==◌, Bool, true, false, Option, none, some, [], ◌∷◌, ◌++◌, ◌≡◌, refl,
  sym, ap, ◌∙◌, ==_iff, if◌then◌else◌,
}
use w17ctl.Transport.{escape, shell_quote}

abbrev after : ℕ → Option Str → Option Str
after c none = none
after c (some s) = some (c ∷ s)

-- the bytes that mean something to the shell outside quotes: the word ends or is not plain there
abbrev special : ℕ → Bool
special c = has_byte c (codes " \t\n|&;<>()$`\"*?[#~=%!{}")

pub data Quoting : Type 0 where
  outside : Quoting
  quoted : Quoting
  escaped : Quoting

-- How a POSIX shell reads one word. Outside quotes a single quote opens, a backslash takes the next
-- byte as it is, and a special byte stops the reading; between single quotes every byte but the
-- closing quote is taken as it is.
unfoldable pub read_word : Quoting → Str → Option Str
read_word outside [] = some []
read_word quoted [] = none
read_word escaped [] = none
read_word outside (c ∷ s) =
    let opened = read_word quoted s in
    let taken = read_word escaped s in
    let plain = read_word outside s in
    if c == 39 then opened else if c == 92 then taken else if special c then none else after c plain
read_word quoted (c ∷ s) =
    let closed = read_word outside s in
    let inner = read_word quoted s in if c == 39 then closed else after c inner
read_word escaped (c ∷ s) = after c (read_word outside s)

read_word-escape : (s : Str) → read_word quoted (escape s ++ 39 ∷ []) ≡ some s
unfolding read_word escape
read_word-escape [] = refl
read_word-escape (c ∷ s) = split (c == 39) refl (read_word-escape s)
  where
    split :
        (b : Bool)
        → (c == 39) ≡ b
        → read_word quoted (escape s ++ 39 ∷ []) ≡ some s
        → read_word quoted ((if b then 39 ∷ 92 ∷ 39 ∷ 39 ∷ escape s else c ∷ escape s) ++ 39 ∷ [])
          ≡ some (c ∷ s)
    split true e h = ap (after 39) h ∙ ap (λ d. some (d ∷ s)) (sym ((==_iff c 39).0 e))
    split false e h = rw e (ap (after c) h)

-- A POSIX shell reads the quoted form of any text back as one word, and that word is the text.
pub read_word-shell_quote : (s : Str) → read_word outside (shell_quote s) ≡ some s
unfolding shell_quote read_word
read_word-shell_quote s = read_word-escape s
