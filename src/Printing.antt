-- ===== src/Printing.antt =====
-- The tables that the scripts print: each is the list of the texts that `print` is called with. A
-- text is put on the terminal with a line feed behind it. The encoding of the terminal is left out.
pub mod Latencies
pub mod Trials
pub mod Peers
pub mod Warned
pub mod Converged
use cs4730_collaborative_tex.Base.{ℕ, zero, suc, ◌-◌, List, [], ◌∷◌, ◌++◌, length}
use cs4730_collaborative_tex.Text.{Text, codes}

-- `c * k`, of a text of one character.
abbrev pub replicate : ℕ → ℕ → Text
replicate zero c = []
replicate (suc k) c = c ∷ replicate k c

-- `f"{s:>w}"` and `f"{s:<w}"`.
abbrev pub pad_left : ℕ → Text → Text
pad_left w s = replicate (w - length s) b' ' ++ s

abbrev pub pad_right : ℕ → Text → Text
pad_right w s = s ++ replicate (w - length s) b' '

-- Cells with a separator in front of each.
abbrev pub spaced : Text → List Text → Text
spaced separator [] = []
spaced separator (cell ∷ cells) = separator ++ (cell ++ spaced separator cells)

-- An empty line, and a title of a table between two lines of the same width.
abbrev pub title_lines : ℕ → Text → List Text
title_lines width title =
    [] ∷ replicate width b'=' ∷ (codes "  " ++ title) ∷ replicate width b'=' ∷ []

-- `print("  " + "-" * width)`
abbrev pub rule : ℕ → Text
rule width = codes "  " ++ replicate width b'-'
