-- ===== src/Bootstrap/Words.antt =====
-- How a POSIX shell reads the words of a command, and that the quoting gives them back.
-- Between words, in a word, in single quotes, and after a backslash.
use text.Mathlib.TextLemmas.{append-nil, nil-append, cons-append, append_assoc}
use cluster_api_provider_ver.Base.{
  refl, nat_eq, ◌≡◌, some, List, ℕ, [], if◌then◌else◌, Option, not, ◌∷◌, ◌<>◌, ◌||◌, false, none,
  String, Bool, ap, arith, inl, sym, ◌∙◌, inr, Bool-cases, eq_iff, map, ◌==◌,
}
use Prim.Native.Char.{code, Char}
use cluster_api_provider_ver.Base.TextEdit.{replace_char, join_texts}
use text.Mathlib.TextEquality.{Char-path}
use cluster_api_provider_ver.Bootstrap.Shell.{shell, shell_quote}
use cluster_api_provider_ver.Base.Wrapping.{one-append}

pub data Mode : Type 0 where
  between bare quoted escaped : Mode

abbrev contains_code : ℕ → String → Bool
contains_code k String.[] = false
contains_code k (String.◌∷◌ c s) = nat_eq k (code c) || contains_code k s

-- A character that stands for itself in a word.
abbrev is_ordinary : Char → Bool
is_ordinary c = not (contains_code (code c) "\t\n\"#$&()*;<>?[`|~{}!")

abbrev push : Char → Option (List String) → Option (List String)
push c none = none
push c (some []) = some []
push c (some (w ∷ ws)) = some (String.◌∷◌ c w ∷ ws)

abbrev close : Option (List String) → Option (List String)
close none = none
close (some ws) = some ("" ∷ ws)

-- The words from a position on; inside a word, the first is what is left of it. Nothing where the
-- text needs more of a shell than words.
unfoldable read : Mode → String → Option (List String)
read between String.[] = some []
read bare String.[] = some ("" ∷ [])
read quoted String.[] = none
read escaped String.[] = none
read between (String.◌∷◌ c s) =
    let skip = read between s in
    let enter = read quoted s in
    let escape = read escaped s in
    let go_on = read bare s in
    if nat_eq (code c) b' '
    then skip
    else if nat_eq (code c) b'\''
    then enter
    else if nat_eq (code c) b'\\'
    then escape
    else if is_ordinary c
    then push c go_on
    else none
read bare (String.◌∷◌ c s) =
    let skip = read between s in
    let enter = read quoted s in
    let escape = read escaped s in
    let go_on = read bare s in
    if nat_eq (code c) b' '
    then close skip
    else if nat_eq (code c) b'\''
    then enter
    else if nat_eq (code c) b'\\'
    then escape
    else if is_ordinary c
    then push c go_on
    else none
read quoted (String.◌∷◌ c s) =
    let leave = read bare s in
    let go_on = read quoted s in if nat_eq (code c) b'\'' then leave else push c go_on
read escaped (String.◌∷◌ c s) =
    let go_on = read bare s in if nat_eq (code c) b'\n' then none else push c go_on

unfoldable pub shell_words : String → Option (List String)
unfolding read
shell_words s = read between s

shell_words_ok : shell_words "a 'b c'\\''' ''" ≡ some ("a" ∷ "b c'" ∷ "" ∷ [])
unfolding shell_words
shell_words_ok = refl

-- A text before the first word.
abbrev prepend : String → Option (List String) → Option (List String)
prepend s none = none
prepend s (some []) = some []
prepend s (some (w ∷ ws)) = some ((s <> w) ∷ ws)

prepend-nil : (o : Option (List String)) → prepend "" o ≡ o
prepend-nil none = refl
prepend-nil (some []) = refl
prepend-nil (some (w ∷ ws)) = ap (λ (u : String). some (u ∷ ws)) (nil-append w)

prepend-cons :
    (c : Char) (s : String) (o : Option (List String))
    → prepend (String.◌∷◌ c s) o ≡ push c (prepend s o)
prepend-cons c s none = refl
prepend-cons c s (some []) = refl
prepend-cons c s (some (w ∷ ws)) = ap (λ (u : String). some (u ∷ ws)) (cons-append c s w)

read_close : (rest : String) → read quoted ("'" <> rest) ≡ read bare rest
unfolding read
read_close rest = ap (read quoted) (one-append "'" rest)

escape_chars :
    (rest : String)
    → "'\\''" <> rest ≡ String.◌∷◌ "'" (String.◌∷◌ "\\" (String.◌∷◌ "'" (String.◌∷◌ "'" rest)))
escape_chars rest =
    cons-append "'" "\\''" rest
    ∙ ap (String.◌∷◌ "'") (
        cons-append "\\" "''" rest
        ∙ ap (String.◌∷◌ "\\")
            (cons-append "'" "'" rest ∙ ap (String.◌∷◌ "'") (one-append "'" rest)))

-- A quote that is closed, escaped and opened again is that quote.
read_escape : (rest : String) → read quoted ("'\\''" <> rest) ≡ push "'" (read quoted rest)
unfolding read
read_escape rest = ap (read quoted) (escape_chars rest)

read_plain :
    (c : Char) (s : String)
    → nat_eq (code c) b'\'' ≡ false
    → read quoted (String.◌∷◌ c s) ≡ push c (read quoted s)
unfolding read
read_plain c s e = ground arith

-- The quoted part of a word is read back, up to the closing quote.
read-replace_char :
    (s rest : String)
    → read quoted (replace_char b'\'' "'\\''" s <> ("'" <> rest)) ≡ prepend s (read bare rest)
unfolding replace_char
read-replace_char String.[] rest =
    ap (read quoted) (nil-append ("'" <> rest))
    ∙ read_close rest
    ∙ sym (prepend-nil (read bare rest))
read-replace_char (String.◌∷◌ c s) rest =
    let quote : String = "'\\''" in
    let later = replace_char b'\'' quote s in
    let tail = later <> ("'" <> rest) in
    let known = read-replace_char s rest in
    let back = sym (prepend-cons c s (read bare rest)) in
    elim (Bool-cases (nat_eq (code c) b'\'')) [
      | inl e ↦
          let c-quote : c ≡ "'" = Char-path c "'" (ground arith) in
          ap
            (λ (b : Bool).
              read quoted ((if b then quote <> later else String.◌∷◌ c later) <> ("'" <> rest)))
            e
          ∙ ap (read quoted) (append_assoc quote later ("'" <> rest))
          ∙ read_escape tail
          ∙ ap (λ (d : Char). push d (read quoted tail)) (sym c-quote)
          ∙ ap (push c) known
          ∙ back
      | inr e ↦
          ap
            (λ (b : Bool).
              read quoted ((if b then quote <> later else String.◌∷◌ c later) <> ("'" <> rest)))
            e
          ∙ ap (read quoted) (cons-append c later ("'" <> rest))
          ∙ read_plain c tail e
          ∙ ap (push c) known
          ∙ back
    ]

read_open : (s : String) → read between ("'" <> s) ≡ read quoted s
unfolding read
read_open s = ap (read between) (one-append "'" s)

read_space : (s : String) → read bare (" " <> s) ≡ close (read between s)
unfolding read
read_space s = ap (read bare) (one-append " " s)

read_empty : (rest : String) → read between ("''" <> rest) ≡ read bare rest
unfolding read
read_empty rest =
    ap (read between) (cons-append "'" "'" rest ∙ ap (String.◌∷◌ "'") (one-append "'" rest))

-- A quoted word is read back.
read-shell_quote :
    (s rest : String) → read between (shell_quote s <> rest) ≡ prepend s (read bare rest)
unfolding shell_quote
read-shell_quote s rest =
    let inner = replace_char b'\'' "'\\''" s in
    elim (Bool-cases (s == "")) [
      | inl e ↦
          ap (λ (b : Bool). read between ((if b then "''" else "'" <> (inner <> "'")) <> rest)) e
          ∙ read_empty rest
          ∙ sym (prepend-nil (read bare rest))
          ∙ ap (λ (t : String). prepend t (read bare rest)) (sym ((eq_iff s "").0 e))
      | inr e ↦
          ap (λ (b : Bool). read between ((if b then "''" else "'" <> (inner <> "'")) <> rest)) e
          ∙ ap (read between) (
              append_assoc "'" (inner <> "'") rest
              ∙ ap (λ (t : String). "'" <> t) (append_assoc inner "'" rest))
          ∙ read_open (inner <> ("'" <> rest))
          ∙ read-replace_char s rest
    ]

read-join_texts : (ws : List String) → read between (join_texts " " (map shell_quote ws)) ≡ some ws
unfolding read join_texts
read-join_texts [] = refl
read-join_texts (w ∷ []) =
    ap (read between) (sym (append-nil (shell_quote w)))
    ∙ read-shell_quote w ""
    ∙ ap (λ (u : String). some (u ∷ [])) (append-nil w)
read-join_texts (w ∷ v ∷ ws) =
    let later = join_texts " " (map shell_quote (v ∷ ws)) in
    read-shell_quote w (" " <> later)
    ∙ ap (prepend w) (read_space later ∙ ap close (read-join_texts (v ∷ ws)))
    ∙ ap (λ (u : String). some (u ∷ v ∷ ws)) (append-nil w)

-- Of a command with two words or more, a shell reads exactly those words, whatever characters they
-- hold.
pub shell_words-shell :
    (w v : String) (ws : List String) → shell_words (shell (w ∷ v ∷ ws)) ≡ some (w ∷ v ∷ ws)
unfolding shell_words shell
shell_words-shell w v ws = read-join_texts (w ∷ v ∷ ws)
