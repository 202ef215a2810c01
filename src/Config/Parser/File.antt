-- ===== src/Config/Parser/File.antt =====
-- What the parser of libcutils/config_parser.c finds in a file of key=value lines.
use tboot.Base.{
  ℕ, ◌≡◌, ◌≢◌, refl, sym, ap, ◌∙◌, false, Option, none, some, List, [], ◌∷◌, ◌++◌, arith, Text,
  text_eq, before_char, if◌then◌else◌,
}
use tboot.Base.Tokens.{
  weaken-NoDelim, NoDelim-append, is_nul, before_nul, NoDelim, strtok, strtok-field, strtok-nil,
}
use tboot.Config.{tboot_config_get, load_config, defaults, is_key, map_get}
use tboot.Config.Lookup.{file_or, load_config-gets}
use tboot.Config.Parser.{
  ConfigParser, contents, parser, config_parser_init, config_parser_get, default_delim, one_of,
  uncomment, lines_of, value_on, get_loop,
}
use tboot.Config.Parser.Lines.{is_special, ends_comment, plain, lines-bare, uncomment-bare}

-- A line of a configuration file: key=value, and a comment behind it. The key and the value have a
-- first character.
pub record Entry : Type 0 where
  pub first : ℕ
  pub key_rest : Text
  pub value_first : ℕ
  pub value_rest : Text
  pub comment : Text

abbrev pub key_of : Entry → Text
key_of e = e.first ∷ e.key_rest

abbrev pub value_of : Entry → Text
value_of e = e.value_first ∷ e.value_rest

-- A line, with the rest of the file behind it.
abbrev pub print_entry : Entry → Text → Text
print_entry e s = key_of e ++ (61 ∷ (value_of e ++ (32 ∷ 35 ∷ (e.comment ++ (10 ∷ s)))))

abbrev pub print_entries : List Entry → Text
print_entries [] = []
print_entries (e ∷ entries) = print_entry e (print_entries entries)

abbrev pub WellFormed : List Entry → Type 0
WellFormed [] = Unit
WellFormed (e ∷ entries) =
    NoDelim is_special (key_of e)
    × NoDelim is_special (value_of e)
    × NoDelim ends_comment e.comment
    × WellFormed entries

-- The value of the first entry with a key.
abbrev pub lookup : Text → List Entry → Option Text
lookup key [] = none
lookup key (e ∷ entries) = if text_eq (key_of e) key then some (value_of e) else lookup key entries

-- The line without its comment.
abbrev bare : Entry → Text
bare e = key_of e ++ (61 ∷ (value_of e ++ (32 ∷ [])))

tokens-bare :
    (e : Entry)
    → NoDelim is_special (key_of e)
    → NoDelim is_special (value_of e)
    → strtok (one_of default_delim) (bare e) ≡ key_of e ∷ value_of e ∷ []
unfolding one_of
tokens-bare e hk hv =
    let delim = one_of default_delim in
    let weak = λ (w : Text) (h : NoDelim is_special w).
      weaken-NoDelim is_special delim w (λ c p. (plain c p).3) h in
    strtok-field delim e.first e.key_rest 61 _ (weak (key_of e) hk) refl
    ∙ ap (λ ts. key_of e ∷ ts)
        (strtok-field delim e.value_first e.value_rest 32 [] (weak (value_of e) hv) refl
          ∙ ap (λ ts. value_of e ∷ ts) (strtok-nil delim))

empty_file : lines_of (uncomment false []) ≡ [] ∷ []
unfolding lines_of uncomment
empty_file = refl

-- The rest of the search, with the lines of the rest of the file.
search : Text → Text → Option Text
search key s = get_loop default_delim key (lines_of (uncomment false s))

search-lookup :
    (key : Text) (entries : List Entry)
    → WellFormed entries
    → search key (print_entries entries) ≡ lookup key entries
unfolding search get_loop value_on
search-lookup key [] h =
    ap (get_loop default_delim key) empty_file
    ∙ ap (value_on key none) (strtok-nil (one_of default_delim))
search-lookup key (e ∷ entries) h =
    let rest = print_entries entries in
    ap (λ t. get_loop default_delim key (lines_of t))
      (uncomment-bare (key_of e) (value_of e) e.comment rest h.0 h.1 h.2)
    ∙ ap (get_loop default_delim key) (lines-bare (key_of e) (value_of e) _ h.0 h.1)
    ∙ ap (value_on key (search key rest)) (tokens-bare e h.0 h.1)
    ∙ ap (λ r. if text_eq (key_of e) key then some (value_of e) else r)
        (search-lookup key entries h.3)

print-plain : (entries : List Entry) → WellFormed entries → NoDelim is_nul (print_entries entries)
print-plain [] h = tt
print-plain (e ∷ entries) h =
    let word = λ (w : Text) (k : NoDelim is_special w).
      weaken-NoDelim is_special is_nul w (λ c p. (plain c p).2) k in
    let comment = weaken-NoDelim ends_comment is_nul e.comment (λ c p. ground (arith, p)) h.2 in
    NoDelim-append is_nul (key_of e) _ (word (key_of e) h.0) (
      refl,
      NoDelim-append is_nul (value_of e) _ (word (value_of e) h.1)
          (refl, (refl, NoDelim-append is_nul e.comment _ comment (refl, print-plain entries h.3))),
    )

no_name : (entries : List Entry) → lookup [] entries ≡ none
unfolding text_eq
no_name [] = refl
no_name (e ∷ entries) = no_name entries

get-lookup :
    (cp : ConfigParser) (key : Text) (entries : List Entry)
    → WellFormed entries
    → cp.delim ≡ default_delim
    → cp.text ≡ uncomment false (print_entries entries)
    → config_parser_get cp key ≡ lookup key entries
unfolding config_parser_get search
get-lookup cp [] entries h d t = sym (no_name entries)
get-lookup cp (c ∷ key) entries h d t =
    ap (λ delim. get_loop delim (c ∷ key) (lines_of cp.text)) d
    ∙ ap (λ text. get_loop default_delim (c ∷ key) (lines_of text)) t
    ∙ search-lookup (c ∷ key) entries h

-- A file of lines key=value, one at least, each with a comment behind it, is parsed, and the parser finds for
-- every key the value of the first line that has it, and nothing for a key that no line has; no key
-- or value may hold a delimiter, a newline, a '#' or a NUL.
pub config_parser_get-print :
    (c : ℕ) (path : Text) (entries : List Entry)
    → WellFormed entries
    → entries ≢ []
    → (cp : ConfigParser) × (config_parser_init (some (c ∷ path)) (contents (print_entries entries))
        ≡ parser cp)
      × ((key : Text) → config_parser_get cp key ≡ lookup key entries)
unfolding config_parser_init
config_parser_get-print c path [] h some_line = absurd (some_line refl)
config_parser_get-print c path (e ∷ rest) h some_line =
    let entries = e ∷ rest in
    let cp : ConfigParser = record {
      text = uncomment false (before_char 0 (print_entries entries));
      delim = default_delim;
    } in
    (
      cp,
      refl,
      λ key.
          get-lookup cp key entries h refl
            (ap (uncomment false) (before_nul (print_entries entries) (print-plain entries h))),
    )

-- The whole way from the file to a setting: loading a file of lines key=value, one at least, each with
-- a comment behind it, gives every keyword the value of
-- the first line that has it, or else its default, and gives nothing to what is no keyword.
pub load_config-print :
    (c : ℕ) (path : Text) (entries : List Entry)
    → WellFormed entries
    → entries ≢ []
    → (cp : ConfigParser) × (config_parser_init (some (c ∷ path)) (contents (print_entries entries))
        ≡ parser cp)
      × ((key : Text)
          → tboot_config_get key (load_config (some (config_parser_get cp))).1 ≡ (
              if is_key key defaults
              then file_or (lookup key entries) (map_get key defaults)
              else none))
load_config-print c path entries h some_line =
    let (cp, parsed, gets) = config_parser_get-print c path entries h some_line in
    (
      cp,
      parsed,
      λ key.
          load_config-gets (config_parser_get cp) key
          ∙ ap (λ v. if is_key key defaults then file_or v (map_get key defaults) else none)
              (gets key),
    )
