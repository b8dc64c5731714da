-- ===== src/Ssh/Quoting.antt =====
-- src/ssh.rs, `shell_quote` and `shell_join`, against a reading of the shell's quoting rules.
use ssh_gateway.Prelude.{
  ℕ, Text, Option, none, some, List, [], ◌∷◌, ◌++◌, ◌==◌, ◌≡◌, refl, ap, sym, ◌∙◌, inl, inr,
  if◌then◌else◌, arith, Bool-cases, ==_iff,
}
use mathlib.Core.Option
use mathlib.Core.List.{append-nil, append_assoc}

abbrev quote : ℕ
quote = 39

abbrev backslash : ℕ
backslash = 92

abbrev blank : ℕ
blank = 32

-- `value.replace('\'', r"'\''")`
escape_quotes : Text → Text
escape_quotes [] = []
escape_quotes (c ∷ s) =
    let rest = escape_quotes s in
    if c == quote then quote ∷ backslash ∷ quote ∷ quote ∷ rest else c ∷ rest

pub shell_quote : Text → Text
unfolding escape_quotes
shell_quote value = quote ∷ escape_quotes value ++ quote ∷ []

pub shell_join : List Text → Text
shell_join [] = []
shell_join (part ∷ []) = shell_quote part
shell_join (part ∷ next ∷ rest) = shell_quote part ++ blank ∷ shell_join (next ∷ rest)

-- A POSIX shell's reader: between words, in a word outside quotes, in single quotes, after a
-- backslash. A byte outside quotes that is no blank, quote or backslash would be open to expansion,
-- and is refused here.
pub data Mode : Type 0 where
  gap word quoted escaped : Mode

pub words_from : Mode → Text → Text → Option (List Text)
words_from gap acc [] = some []
words_from word acc [] = some (acc ∷ [])
words_from quoted acc [] = none
words_from escaped acc [] = none
words_from gap acc (c ∷ s) =
    let skip = words_from gap [] s in
    let open_quote = words_from quoted [] s in
    let escape = words_from escaped [] s in
    if c == blank
    then skip
    else if c == quote
    then open_quote
    else if c == backslash
    then escape
    else none
words_from word acc (c ∷ s) =
    let finish = Option.map (◌∷◌ acc) (words_from gap [] s) in
    let open_quote = words_from quoted acc s in
    let escape = words_from escaped acc s in
    if c == blank
    then finish
    else if c == quote
    then open_quote
    else if c == backslash
    then escape
    else none
words_from quoted acc (c ∷ s) =
    let close = words_from word acc s in
    let more = words_from quoted (acc ++ c ∷ []) s in if c == quote then close else more
words_from escaped acc (c ∷ s) = words_from word (acc ++ c ∷ []) s

quoted-escape :
    (v s acc : Text)
    → words_from quoted acc (escape_quotes v ++ quote ∷ s) ≡ words_from word (acc ++ v) s
unfolding words_from escape_quotes
quoted-escape [] s acc = rw (append-nil acc)
quoted-escape (c ∷ v) s acc = elim (Bool-cases (c == quote)) [
  | inl e ↦ rw e (
      quoted-escape v s (acc ++ quote ∷ [])
      ∙ ap (λ t. words_from word t s)
          (append_assoc acc (quote ∷ []) v ∙ ap (λ q. acc ++ q ∷ v) (sym ((==_iff c quote).0 e))))
  | inr e ↦ ground (arith, quoted-escape v s (acc ++ c ∷ []), append_assoc acc (c ∷ []) v)
]

gap-shell_quote : (v s : Text) → words_from gap [] (shell_quote v ++ s) ≡ words_from word v s
unfolding words_from shell_quote
gap-shell_quote v s = rw (append_assoc (escape_quotes v) (quote ∷ []) s) (quoted-escape v s [])

word-blank : (v s : Text) → words_from word v (blank ∷ s) ≡ Option.map (◌∷◌ v) (words_from gap [] s)
unfolding words_from
word-blank v s = refl

-- Whatever bytes the arguments hold, the shell reads the joined command as exactly these arguments,
-- and no byte of them stands outside quotes.
pub words-shell_join : (parts : List Text) → words_from gap [] (shell_join parts) ≡ some parts
unfolding shell_join
words-shell_join [] = unfold words_from in refl
words-shell_join (v ∷ []) =
    ap (words_from gap []) (sym (append-nil (shell_quote v)))
    ∙ gap-shell_quote v []
    ∙ unfold words_from in refl
words-shell_join (v ∷ w ∷ rest) =
    gap-shell_quote v (blank ∷ shell_join (w ∷ rest))
    ∙ word-blank v (shell_join (w ∷ rest))
    ∙ ap (Option.map (◌∷◌ v)) (words-shell_join (w ∷ rest))
