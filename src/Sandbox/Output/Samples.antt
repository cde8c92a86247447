-- ===== src/Sandbox/Output/Samples.antt =====
-- nexau/archs/sandbox/output_utils.py: cleaned outputs.
use nex_au.Prelude.{
  [], List, ℕ, ◌≡◌, refl, Bool, false, ◌&&◌, ◌∷◌, ◌++◌, nat_eq, list_eq, arith, contains, leb,
}
use nex_au.Prelude.Text.{Text, text, starts_with}
use nex_au.Sandbox.Output.{strip_ansi, resolve_cr, collapse_from, clean_shell_output}
use nex_au.Sandbox.Output.Cleaned.{clean_shell_output-NoCr}
use nex_au.Sandbox.Output.Repeated.{collapse_from-again}

abbrev ascii_digit : ℕ → Bool
ascii_digit c = leb 48 c && leb c 57

-- A title that is set, a coloured word, a line that is overwritten and a Windows line end.
abbrev progress : Text
progress =
    27 ∷ 93 ∷ 48 ∷ 7 ∷ 27 ∷ 91 ∷ 51 ∷ 49 ∷ 109 ∷ text "10%"
    ++ 13 ∷ text "20%"
    ++ 13 ∷ 10 ∷ text "done"

strip_sample : strip_ansi progress ≡ text "10%" ++ 13 ∷ text "20%" ++ 13 ∷ 10 ∷ text "done"
unfolding strip_ansi starts_with
strip_sample = refl

resolve_sample : resolve_cr (strip_ansi progress) ≡ text "20%" ++ 10 ∷ text "done"
unfolding strip_ansi resolve_cr starts_with
resolve_sample = refl

-- A carriage return at the end of a line takes the line away.
last_bar_sample : resolve_cr (text "99%" ++ 13 ∷ 13 ∷ 10 ∷ text "done") ≡ 10 ∷ text "done"
unfolding resolve_cr starts_with
last_bar_sample = refl

abbrev steps : Text
steps =
    text "1 of 9"
    ++ 10 ∷ text "2 of 9"
    ++ 10 ∷ text "3 of 9"
    ++ 10 ∷ text "10 of 10"
    ++ 10 ∷ text "end"

collapse_sample :
    clean_shell_output ascii_digit steps
    ≡ text "1 of 9"
      ++ 10 ∷ text "... [2 similar lines collapsed]"
      ++ 10 ∷ text "10 of 10"
      ++ 10 ∷ text "end"
unfolding clean_shell_output starts_with
collapse_sample = refl

clean_shell_output-NoCr_example : contains (clean_shell_output ascii_digit progress) 13 ≡ false
clean_shell_output-NoCr_example = clean_shell_output-NoCr ascii_digit progress

-- Lines that all have the form of the summary.
abbrev summaries : List Text
summaries =
    text "... [1 similar lines collapsed]"
    ∷ text "... [2 similar lines collapsed]"
    ∷ text "... [3 similar lines collapsed]"
    ∷ text "... [4 similar lines collapsed]"
    ∷ text "... [5 similar lines collapsed]"
    ∷ []

collapse_from-again_example :
    collapse_from ascii_digit 4 0 (collapse_from ascii_digit 4 0 summaries)
    ≡ collapse_from ascii_digit 4 0 summaries
collapse_from-again_example = collapse_from-again ascii_digit 4 summaries (omega arith)
