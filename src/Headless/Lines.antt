-- ===== src/Headless/Lines.antt =====
-- How `runHeadless` takes the text of a script apart into its lines.
use cs4730_collaborative_tex.Base.{
  ℕ, zero, suc, ◌+◌, ◌/◌, ◌%◌, ◌≡◌, refl, ap, ◌∙◌, inl, inr, Bool, true, false, not, ◌&&◌,
  Bool-cases, List, [], ◌∷◌, ◌++◌, map, All, All-append, arith, ltb, nat_beq,
}
use cs4730_collaborative_tex.Base.Int.{ℤ, pos, negsuc}
use cs4730_collaborative_tex.Text.{Text, codes}
use cs4730_collaborative_tex.Text.Decimal.{print, print_from, print_int}
use cs4730_collaborative_tex.Script.{Command, command_line, script_text}
use cs4730_collaborative_tex.Headless.{get_lines, push_byte}
use cs4730_collaborative_tex.Headless.Parsing.{IsReadable}

abbrev InLine : ℕ → Type 0
InLine c = nat_beq c 0xa ≡ false

get_lines-line :
    (line rest : Text) → All InLine line → get_lines (line ++ 0xa ∷ rest) ≡ line ∷ get_lines rest
unfolding get_lines push_byte
get_lines-line [] rest h = refl
get_lines-line (c ∷ line) rest (h, hs) = ground (arith, h, get_lines-line line rest hs)

print_from-InLine : (f n : ℕ) (out : Text) → All InLine out → All InLine (print_from f n out)
unfolding print_from
print_from-InLine zero n out h = h
print_from-InLine (suc f) n out h =
    let here : InLine (0x30 + n % 10) = ground arith in
    elim (Bool-cases (ltb n 10)) [
      | inl small ↦ rw small (here, h)
      | inr big ↦ rw big (print_from-InLine f (n / 10) ((0x30 + n % 10) ∷ out) (here, h))
    ]

print-InLine : (n : ℕ) → All InLine (print n)
unfolding print
print-InLine n = print_from-InLine (suc n) n [] tt

print_int-InLine : (n : ℤ) → All InLine (print_int n)
unfolding print_int
print_int-InLine (pos n) = print-InLine n
print_int-InLine (negsuc n) = (refl, print-InLine (suc n))

is_line : Text → Bool
is_line [] = true
is_line (c ∷ s) = not (nat_beq c 0xa) && is_line s

is_line-All : (s : Text) → is_line s ≡ true → All InLine s
unfolding is_line
is_line-All [] h = tt
is_line-All (c ∷ s) h = (ground (arith, h), is_line-All s (ground (arith, h)))

command_line-InLine : (c : Command) → IsReadable c → All InLine (command_line c)
unfolding command_line is_line
command_line-InLine (Command.sleep n) h =
    All-append InLine (codes "SLEEP ") (print_int n) (is_line-All (codes "SLEEP ") refl)
      (print_int-InLine n)
command_line-InLine (Command.insert p c) (small, filled) =
    All-append InLine (codes "INSERT ") (print p ++ 0x20 ∷ c ∷ [])
      (is_line-All (codes "INSERT ") refl)
      (All-append InLine (print p) (0x20 ∷ c ∷ []) (print-InLine p)
        (refl, (ground (arith, filled), tt)))
command_line-InLine (Command.delete p) h =
    All-append InLine (codes "DELETE ") (print p) (is_line-All (codes "DELETE ") refl)
      (print-InLine p)
command_line-InLine Command.dump h = is_line-All (codes "DUMP") refl
command_line-InLine Command.quit h = is_line-All (codes "QUIT") refl

-- `getline` takes a script apart into its commands' lines.
pub get_lines-script_text :
    (cs : List Command) → All IsReadable cs → get_lines (script_text cs) ≡ map command_line cs
unfolding script_text
get_lines-script_text [] h = unfold get_lines in refl
get_lines-script_text (c ∷ cs) (h, hs) =
    get_lines-line (command_line c) (script_text cs) (command_line-InLine c h)
    ∙ ap (λ ls. command_line c ∷ ls) (get_lines-script_text cs hs)
