-- ===== src/Pdf/Writer.antt =====
-- lib/certificate-pdf.ts: `LineWriter`. Lengths are in hundredths of a point, and a height is counted
-- from the top edge down: the source's `y` is the page's height less the depth.
use eps_dapp.Base.{ℕ, ◌+◌, ◌-◌, ◌*◌, Bool, true, false, List, [], ◌∷◌, ◌++◌, Text, codes}
use eps_dapp.Pdf.Wrap.{Widths, wrap}

abbrev pub a4_width : ℕ
a4_width = 59528

abbrev pub a4_height : ℕ
a4_height = 84189

abbrev pub margin : ℕ
margin = 5600

pub data Color : Type 0 where
  black grey blue : Color

-- A call of `page.drawText(text, {...})`, with the place of the text's first line. At a line break in
-- the text pdf-lib goes on below: how far is a parameter of what is said of it, and nothing here moves.
pub record Drawing : Type 0 where
  pub text : Text
  pub x : ℕ
  pub depth : ℕ
  pub size : ℕ
  pub is_bold : Bool
  pub color : Color

pub record LineWriter : Type 0 where
  pub depth : ℕ
  pub drawn : List Drawing

abbrev pub new_writer : LineWriter
new_writer = record { depth = margin; drawn = [] }

abbrev pub down : ℕ → LineWriter → LineWriter
down n w = record w { depth = w.depth + n }

abbrev pub draw : Text → ℕ → ℕ → Bool → Color → LineWriter → LineWriter
draw text x size is_bold color w = record w {
  drawn =
      w.drawn
      ++ record {
        text = text;
        x = x;
        depth = w.depth;
        size = size;
        is_bold = is_bold;
        color = color;
      }
        ∷ [];
}

unfoldable pub heading : Text → LineWriter → LineWriter
heading text w = down 800 (draw text margin 18 true black (down 1800 w))

unfoldable pub section : Text → LineWriter → LineWriter
section text w = down 400 (draw text margin 12 true black (down 1400 w))

abbrev pub labelled : Text → Text → Color → LineWriter → LineWriter
labelled label value color w =
    draw value (margin + 13000) 9 false color
      (draw (label ++ codes ":") margin 9 true grey (down 1600 w))

unfoldable pub field : Text → Text → LineWriter → LineWriter
field label value = labelled label value black

unfoldable pub link : Text → Text → LineWriter → LineWriter
link label url = labelled label url blue

unfoldable pub write_lines : List Text → LineWriter → LineWriter
write_lines [] w = w
write_lines (line ∷ lines) w = write_lines lines (draw line margin 9 false grey (down 1300 w))

unfoldable pub paragraph : Widths → Text → LineWriter → LineWriter
unfolding write_lines wrap
paragraph widths text w = write_lines (wrap widths text 9 (a4_width - 2 * margin)) w

unfoldable pub gap : LineWriter → LineWriter
gap w = down 800 w

-- At the height of the margin, wherever the writer is.
unfoldable pub footer : Text → LineWriter → LineWriter
footer text w = record w {
  drawn =
      w.drawn
      ++ record {
        text = text;
        x = margin;
        depth = a4_height - margin;
        size = 8;
        is_bold = false;
        color = grey;
      }
        ∷ [];
}
