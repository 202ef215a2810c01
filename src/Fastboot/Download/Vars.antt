-- ===== src/Fastboot/Download/Vars.antt =====
-- `getvar:` against the variables that were published.
use tboot.Base.{
  ℕ, ◌≡◌, refl, ◌∙◌, Option, none, some, List, [], ◌∷◌, arith, Text, text_eq_refl, text_eq_symm,
}
use tboot.Fastboot.{Session}
use tboot.Fastboot.Reply.{fastboot_okay}
use tboot.Fastboot.Download.{fastboot_publish, fastboot_getvar, cmd_getvar, find_var, answer_var}

abbrev pub or_empty : Option Text → Text
or_empty none = []
or_empty (some value) = value

answer_var-eq :
    (name : Text) (vars : List (Text × Text)) (s : Session)
    → answer_var name vars s ≡ fastboot_okay (or_empty (find_var name vars)) s
unfolding answer_var find_var
answer_var-eq name [] s = refl
answer_var-eq name ((n, v) ∷ vars) s =
    ground (arith, answer_var-eq name vars s, text_eq_symm n name)

-- The host's `getvar:name`, with a name, is answered by one OKAY that carries what
-- `fastboot_getvar` finds, or nothing where there is no such variable; after a `fastboot_publish`
-- of that name it carries the new value.
pub getvar_answers :
    (c : ℕ) (name value : Text) (s : Session)
    → (cmd_getvar (c ∷ name) s ≡ fastboot_okay (or_empty (fastboot_getvar (c ∷ name) s)) s)
      × (let s' = fastboot_publish (c ∷ name) value s in
          cmd_getvar (c ∷ name) s' ≡ fastboot_okay value s')
unfolding cmd_getvar fastboot_getvar fastboot_publish
getvar_answers c name value s = (
  answer_var-eq (c ∷ name) s.varlist s,
  answer_var-eq (c ∷ name) (((c ∷ name), value) ∷ s.varlist)
        (record s { varlist = ((c ∷ name), value) ∷ s.varlist })
      ∙ rw (find_var, text_eq_refl (c ∷ name)) refl,
)
