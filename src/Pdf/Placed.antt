-- ===== src/Pdf/Placed.antt =====
-- lib/certificate-pdf.ts: `LineWriter` goes down the page.
use eps_dapp.Base.{
  ℕ, ◌+◌, ◌*◌, ◌≤◌, Bool, true, false, List, [], ◌∷◌, ◌++◌, arith, All, Text, codes, length,
}
use eps_dapp.Pdf.Writer.{
  Drawing, LineWriter, Color, margin, down, draw, labelled, heading, section, field, link,
  write_lines, gap,
}

-- Nothing that is drawn is lower than this.
abbrev pub Above : ℕ → List Drawing → Type 0
Above depth drawn = All (λ (d : Drawing). d.depth ≤ depth) drawn

pub Above-more : (m n : ℕ) (drawn : List Drawing) → m ≤ n → Above m drawn → Above n drawn
Above-more m n [] le k = tt
Above-more m n (d ∷ drawn) le (p, k) = (omega arith, Above-more m n drawn le k)

pub Above-append :
    (n : ℕ) (drawn : List Drawing) (d : Drawing)
    → Above n drawn
    → d.depth ≤ n
    → Above n (drawn ++ d ∷ [])
Above-append n [] d k le = (le, tt)
Above-append n (e ∷ drawn) d (p, k) le = (p, Above-append n drawn d k le)

-- A piece of the page takes at most this much of its height, and draws nothing below where it ends.
abbrev pub Takes : ℕ → (LineWriter → LineWriter) → Type 0
Takes n f =
    (w : LineWriter)
    → Above w.depth w.drawn
    → ((f w).depth ≤ w.depth + n) × Above (f w).depth (f w).drawn

pub Takes-then :
    (m n : ℕ) (f g : LineWriter → LineWriter) → Takes m f → Takes n g → Takes (m + n) (λ w. g (f w))
Takes-then m n f g first second w above =
    let (le, so_far) = first w above in let (le', done) = second (f w) so_far in (omega arith, done)

pub Takes-more : (m n : ℕ) (f : LineWriter → LineWriter) → m ≤ n → Takes m f → Takes n f
Takes-more m n f le takes w above = let (le', done) = takes w above in (omega arith, done)

down-Takes : (n : ℕ) → Takes n (down n)
down-Takes n w above = (omega arith, Above-more w.depth (w.depth + n) w.drawn (omega arith) above)

draw-Takes :
    (text : Text) (x size : ℕ) (is_bold : Bool) (color : Color)
    → Takes 0 (draw text x size is_bold color)
draw-Takes text x size is_bold color w above =
    (omega arith, Above-append w.depth w.drawn _ above (omega arith))

pub none-Takes : Takes 0 (λ w. w)
none-Takes w above = (omega arith, above)

titled-Takes :
    (text : Text) (above below size : ℕ)
    → Takes
        (above + below)
        (λ w. down below (draw text margin size true Color.black (down above w)))
titled-Takes text above below size =
    Takes-more (above + 0 + below) (above + below)
      (λ w. down below (draw text margin size true Color.black (down above w))) (omega arith)
      (Takes-then (above + 0) below (λ w. draw text margin size true Color.black (down above w))
        (down below)
        (Takes-then above 0 (down above) (draw text margin size true Color.black) (down-Takes above)
          (draw-Takes text margin size true Color.black))
        (down-Takes below))

pub heading-Takes : (text : Text) → Takes 2600 (heading text)
unfolding heading
heading-Takes text = titled-Takes text 1800 800 18

pub section-Takes : (text : Text) → Takes 1800 (section text)
unfolding section
section-Takes text = titled-Takes text 1400 400 12

labelled-Takes : (label value : Text) (color : Color) → Takes 1600 (labelled label value color)
labelled-Takes label value color =
    Takes-then 1600 0 (λ w. draw (label ++ codes ":") margin 9 true Color.grey (down 1600 w))
      (draw value (margin + 13000) 9 false color)
      (Takes-then 1600 0 (down 1600) (draw (label ++ codes ":") margin 9 true Color.grey)
        (down-Takes 1600) (draw-Takes (label ++ codes ":") margin 9 true Color.grey))
      (draw-Takes value (margin + 13000) 9 false color)

field-Takes : (label value : Text) → Takes 1600 (field label value)
unfolding field
field-Takes label value = labelled-Takes label value Color.black

pub link-Takes : (label value : Text) → Takes 1600 (link label value)
unfolding link
link-Takes label value = labelled-Takes label value Color.blue

pub gap-Takes : Takes 800 gap
unfolding gap
gap-Takes = down-Takes 800

pub lines-Takes : (lines : List Text) → Takes (1300 * length lines) (write_lines lines)
unfolding write_lines
lines-Takes [] = none-Takes
lines-Takes (line ∷ lines) =
    Takes-more (1300 + 0 + 1300 * length lines) (1300 * length (line ∷ lines))
      (λ w. write_lines lines (draw line margin 9 false Color.grey (down 1300 w))) (omega arith)
      (Takes-then (1300 + 0) (1300 * length lines)
        (λ w. draw line margin 9 false Color.grey (down 1300 w)) (write_lines lines)
        (Takes-then 1300 0 (down 1300) (draw line margin 9 false Color.grey) (down-Takes 1300)
          (draw-Takes line margin 9 false Color.grey))
        (lines-Takes lines))

-- The pieces of a section, one after the other.
pub field_then :
    (n : ℕ) (f : LineWriter → LineWriter) (label value : Text)
    → Takes n f
    → Takes (n + 1600) (λ w. field label value (f w))
field_then n f label value takes =
    Takes-then n 1600 f (field label value) takes (field-Takes label value)
