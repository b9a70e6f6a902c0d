-- ===== src/BugReport/Quoting.antt =====
-- What the shell and the kernel make of the texts.
use mathlib.Core.List.{append_assoc, append-nil}
use signalk_doctor_server.Common.{
  ℕ, ◌+◌, ◌/◌, ◌%◌, ◌≡◌, refl, ap, ◌∙◌, Bool, true, false, ◌||◌, Option, none, some, List, [], ◌∷◌,
  ◌++◌, arith, if◌then◌else◌, ◌==◌, Bool-cases, inl, inr,
}
use signalk_doctor_server.Common.Text.{codes, is_word}
use signalk_doctor_server.BugReport.Paths.{
  quote, escape_quotes, shell_quote, shell_command, unescape_mountinfo_field,
}

-- How a POSIX shell cuts a line into words: between single quotes everything is literal, outside
-- of them a backslash takes the next character as it is and spaces separate. `none` is a line
-- that is unfinished, or has a character outside of quotes that may mean more than itself.
pub data Mode : Type 0 where
  blank word quoted escaped : Mode

abbrev pub to_word : ℕ → Option (List (List ℕ)) → Option (List (List ℕ))
to_word c none = none
to_word c (some []) = some ((c ∷ []) ∷ [])
to_word c (some (w ∷ ws)) = some ((c ∷ w) ∷ ws)

abbrev pub new_word : Option (List (List ℕ)) → Option (List (List ℕ))
new_word none = none
new_word (some ws) = some ([] ∷ ws)

abbrev pub is_plain : ℕ → Bool
is_plain c = is_word c || c == b'-' || c == b'/' || c == b'.'

unfoldable pub shell_words : Mode → List ℕ → Option (List (List ℕ))
shell_words blank [] = some []
shell_words word [] = some ([] ∷ [])
shell_words quoted [] = none
shell_words escaped [] = none
shell_words blank (c ∷ s) =
    let skip = shell_words blank s in
    let open_quote = shell_words quoted s in
    let literal = shell_words escaped s in
    let plain = to_word c (shell_words word s) in
    if c == 32
    then skip
    else if c == quote
    then open_quote
    else if c == b'\\'
    then literal
    else if is_plain c
    then plain
    else none
shell_words word (c ∷ s) =
    let next = new_word (shell_words blank s) in
    let open_quote = shell_words quoted s in
    let literal = shell_words escaped s in
    let plain = to_word c (shell_words word s) in
    if c == 32
    then next
    else if c == quote
    then open_quote
    else if c == b'\\'
    then literal
    else if is_plain c
    then plain
    else none
shell_words quoted (c ∷ s) =
    let close = shell_words word s in
    let more = to_word c (shell_words quoted s) in if c == quote then close else more
shell_words escaped (c ∷ s) = to_word c (shell_words word s)

abbrev prepend : List ℕ → Option (List (List ℕ)) → Option (List (List ℕ))
prepend [] x = x
prepend (c ∷ s) x = to_word c (prepend s x)

prepend-some :
    (s w : List ℕ) (ws : List (List ℕ)) → prepend s (some (w ∷ ws)) ≡ some ((s ++ w) ∷ ws)
prepend-some [] w ws = refl
prepend-some (c ∷ s) w ws = ap (to_word c) (prepend-some s w ws)

-- A quoted text stands for itself, whatever follows.
shell_words-escape_quotes :
    (s rest : List ℕ)
    → shell_words quoted (escape_quotes s ++ quote ∷ rest) ≡ prepend s (shell_words word rest)
unfolding shell_words escape_quotes
shell_words-escape_quotes [] rest = refl
shell_words-escape_quotes (c ∷ s) rest = elim (Bool-cases (c == quote)) [
  | inl e ↦
      let same : c ≡ quote = ground (e, arith) in
      rw same (ap (to_word quote) (shell_words-escape_quotes s rest))
  | inr e ↦ rw e (rw e (ap (to_word c) (shell_words-escape_quotes s rest)))
]

shell_words-shell_quote :
    (s rest : List ℕ)
    → shell_words quoted ((escape_quotes s ++ quote ∷ []) ++ rest)
      ≡ prepend s (shell_words word rest)
shell_words-shell_quote s rest =
    ap (shell_words quoted) (append_assoc (escape_quotes s) (quote ∷ []) rest)
    ∙ shell_words-escape_quotes s rest

-- Whatever the paths hold, quotes and blanks included, the shell on the host reads the command as
-- exactly four words: the script, the subcommand, the flag and the directory.
pub shell_words-shell_command :
    (script out_dir : List ℕ)
    → shell_words blank (shell_command script out_dir)
      ≡ some (script ∷ codes "bug-report" ∷ codes "--to" ∷ out_dir ∷ [])
unfolding shell_words shell_command shell_quote
shell_words-shell_command script out_dir =
    shell_words-shell_quote script (codes " bug-report --to " ++ shell_quote out_dir)
    ∙ ap (λ x. prepend script (tail_words x)) (shell_words-escape_quotes out_dir [])
    ∙ ap (λ x. prepend script (tail_words x)) (prepend-some out_dir [] [])
    ∙ prepend-some script [] (codes "bug-report" ∷ codes "--to" ∷ (out_dir ++ []) ∷ [])
    ∙ simp append-nil
  where
    tail_words : Option (List (List ℕ)) → Option (List (List ℕ))
    tail_words x =
        new_word (prepend (codes "bug-report") (new_word (prepend (codes "--to") (new_word x))))

-- The octal escape that the kernel writes for a blank or a backslash in a mount table.
abbrev pub is_special : ℕ → Bool
is_special c = c == 32 || c == 9 || c == 10 || c == 92

unfoldable pub escape_field : List ℕ → List ℕ
escape_field [] = []
escape_field (c ∷ s) =
    let rest = escape_field s in
    if is_special c then 92 ∷ (48 + c / 64) ∷ (48 + c / 8 % 8) ∷ (48 + c % 8) ∷ rest else c ∷ rest

keeps_plain :
    (c : ℕ) (s : List ℕ)
    → (c == 92) ≡ false
    → unescape_mountinfo_field (c ∷ s) ≡ c ∷ unescape_mountinfo_field s
unfolding unescape_mountinfo_field
keeps_plain c [] h = refl
keeps_plain c (a ∷ []) h = refl
keeps_plain c (a ∷ b ∷ []) h = refl
keeps_plain c (a ∷ b ∷ d ∷ s) h = rw h refl

takes_escape :
    (c : ℕ) (s : List ℕ)
    → is_special c ≡ true
    → unescape_mountinfo_field (92 ∷ (48 + c / 64) ∷ (48 + c / 8 % 8) ∷ (48 + c % 8) ∷ s)
      ≡ c ∷ unescape_mountinfo_field s
unfolding unescape_mountinfo_field
takes_escape c s h = ground (h, arith)

-- A field of the mount table is read back as the path that the kernel wrote, whatever it holds.
pub unescape-escape_field : (s : List ℕ) → unescape_mountinfo_field (escape_field s) ≡ s
unfolding escape_field unescape_mountinfo_field
unescape-escape_field [] = refl
unescape-escape_field (c ∷ s) = elim (Bool-cases (is_special c)) [
  | inl e ↦ rw e (takes_escape c (escape_field s) e ∙ ap (λ l. c ∷ l) (unescape-escape_field s))
  | inr e ↦ rw e (
      keeps_plain c (escape_field s) (ground (e, arith))
      ∙ ap (λ l. c ∷ l) (unescape-escape_field s))
]
