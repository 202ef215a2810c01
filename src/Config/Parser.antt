-- ===== src/Config/Parser.antt =====
-- libcutils/config_parser.c: the reader of the configuration file.
pub mod Lines
pub mod File
use tboot.Base.{
  ℕ, zero, suc, ◌+◌, ◌-◌, ◌/◌, ◌*◌, ◌%◌, ◌^◌, ◌≤◌, ◌<◌, min, ◌≡◌, refl, sym, ap, ◌∙◌, ◌≢◌, ◌↔◌, ◌⊎◌,
  inl, inr, Bool, true, false, not, ◌&&◌, ◌||◌, Option, none, some, List, [], ◌∷◌, ◌++◌, map, arith,
  String, Text, codes, text_eq, starts_with, after_char, before_char, text_eq_refl, text_eq-eq,
  text_eq_symm, text_eq_iff, starts_with-append, length, get_elem?, take, drop, length-append,
  length-take, length-drop, take-append-drop, take_all, take-take, drop-nil, drop-drop, drop_all,
  ltb, leb, ◌==◌, if◌then◌else◌, ltb→lt, lt→ltb, ==_iff, Bool-cases, Option-cases,
}
use tboot.Base.Tokens.{strtok}

-- `data`, as the string that it is read as, and `delim`.
pub record ConfigParser : Type 0 where
  pub text : Text
  pub delim : Text

-- What the system calls on the file come to: open() fails; fstat() fails, or gives no size; read()
-- gives nothing of a file with a size; or it gives these bytes, which an empty file has none of.
pub data FileRead : Type 0 where
  not_opened no_size not_read : FileRead
  contents : Text → FileRead

-- The text without what stands between a '#' and the end of its line; the flag says that a '#' was
-- seen on this line.
unfoldable pub uncomment : Bool → Text → Text
uncomment comment [] = []
uncomment true (c ∷ s) =
    let inside = uncomment true s in
    let line_end = uncomment false s in if c == 10 then 10 ∷ line_end else inside
uncomment false (c ∷ s) =
    let inside = uncomment true s in
    let next = uncomment false s in if c == 35 then inside else c ∷ next

-- "= \t"
abbrev pub default_delim : Text
default_delim = 61 ∷ 32 ∷ 9 ∷ []

-- How `config_parser_init` ends: with a parser, with NULL, or in config_parser_free() of a pointer
-- that was never set.
pub data Parsed : Type 0 where
  parser : ConfigParser → Parsed
  no_parser stray_free : Parsed

-- The buffer has no byte for the NUL that strchr() and strlen() look for: the byte behind it is
-- taken to be one. No malloc() fails.
unfoldable pub config_parser_init : Option Text → FileRead → Parsed
config_parser_init none file = no_parser
config_parser_init (some []) file = no_parser
config_parser_init (some (c ∷ path)) not_opened = no_parser
config_parser_init (some (c ∷ path)) no_size = stray_free
config_parser_init (some (c ∷ path)) not_read = no_parser
config_parser_init (some (c ∷ path)) (contents []) = stray_free
config_parser_init (some (c ∷ path)) (contents (b ∷ bytes)) =
    parser (record { text = uncomment false (before_char 0 (b ∷ bytes)); delim = default_delim })

unfoldable pub one_of : Text → ℕ → Bool
one_of [] c = false
one_of (d ∷ delim) c = c == d || one_of delim c

-- The pieces of a text between its newlines.
unfoldable pub first_on : ℕ → List Text → List Text
first_on c [] = (c ∷ []) ∷ []
first_on c (line ∷ lines) = (c ∷ line) ∷ lines

unfoldable pub lines_of : Text → List Text
unfolding first_on
lines_of [] = [] ∷ []
lines_of (c ∷ s) = let rest = lines_of s in if c == 10 then [] ∷ rest else first_on c rest

-- A line of the wanted key ends the search, also where it has no value.
unfoldable pub value_on : Text → Option Text → List Text → Option Text
value_on key rest [] = rest
value_on key rest (t ∷ tokens) = if text_eq t key then get_elem? tokens 0 else rest

unfoldable pub get_loop : Text → Text → List Text → Option Text
unfolding value_on
get_loop delim key [] = none
get_loop delim key (line ∷ lines) =
    value_on key (get_loop delim key lines) (strtok (one_of delim) line)

unfoldable pub config_parser_get : ConfigParser → Text → Option Text
unfolding get_loop
config_parser_get cp [] = none
config_parser_get cp (c ∷ key) = get_loop cp.delim (c ∷ key) (lines_of cp.text)

-- `true` stands for 0; `delim` has room for seven characters.
unfoldable pub config_parser_setdelim : Text → ConfigParser → Bool × ConfigParser
config_parser_setdelim [] cp = (false, cp)
config_parser_setdelim (c ∷ delim) cp = (true, record cp { delim = take 7 (c ∷ delim) })
