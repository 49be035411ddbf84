-- ===== src/Picture.antt =====
-- app/api/nft/image/route.ts: the picture of a token, with the values of the query in it.
pub mod Escaped
use eps_dapp.Base.{ℕ, ◌==◌, Option, or_else, [], ◌∷◌, ◌++◌, if◌then◌else◌, Text, codes}

-- `s.replace(/c/g, by)`, for one character.
unfoldable pub replace_all : ℕ → Text → Text → Text
replace_all c by [] = []
replace_all c by (d ∷ s) = let rest = replace_all c by s in if d == c then by ++ rest else d ∷ rest

unfoldable pub esc : Text → Text
unfolding replace_all
esc s = replace_all b'"' (codes "&quot;") (
    replace_all b'>' (codes "&gt;")
      (replace_all b'<' (codes "&lt;") (replace_all b'&' (codes "&amp;") s)))

unfoldable pub svg_before : Text
svg_before =
    codes
      "<svg xmlns=\"http://www.w3.org/2000/svg\" width=\"400\" height=\"400\" viewBox=\"0 0 400 400\">"
    ++ codes "<defs>"
    ++ codes "<linearGradient id=\"bg\" x1=\"0\" y1=\"0\" x2=\"0\" y2=\"1\">"
    ++ codes "<stop offset=\"0\" stop-color=\"#0a0e1a\"/>"
    ++ codes "<stop offset=\"1\" stop-color=\"#0d1526\"/>"
    ++ codes "</linearGradient>"
    ++ codes "</defs>"
    ++ codes "<rect x=\"0\" y=\"0\" width=\"400\" height=\"400\" rx=\"16\" fill=\"url(#bg)\"/>"
    ++ codes
        "<rect x=\"10\" y=\"10\" width=\"380\" height=\"380\" rx=\"12\" fill=\"none\" stroke=\"#f59e0b\" stroke-width=\"2\" opacity=\"0.6\"/>"
    ++ codes
        "<rect x=\"18\" y=\"18\" width=\"364\" height=\"364\" rx=\"10\" fill=\"none\" stroke=\"#f59e0b\" stroke-width=\"1\" opacity=\"0.3\"/>"
    ++ codes "<g transform=\"translate(174,38)\">"
    ++ codes "<rect x=\"0\" y=\"0\" width=\"8\" height=\"28\" rx=\"2\" fill=\"#8b5cf6\"/>"
    ++ codes "<rect x=\"18\" y=\"0\" width=\"8\" height=\"28\" rx=\"2\" fill=\"#8b5cf6\"/>"
    ++ codes "<rect x=\"0\" y=\"10\" width=\"26\" height=\"8\" rx=\"2\" fill=\"#8b5cf6\"/>"
    ++ codes "</g>"
    ++ codes
        "<text x=\"200\" y=\"84\" font-family=\"Arial, sans-serif\" font-size=\"9\" fill=\"#8b5cf6\" text-anchor=\"middle\" letter-spacing=\"4\">HEDERA TESTNET</text>"
    ++ codes
        "<line x1=\"60\" y1=\"94\" x2=\"340\" y2=\"94\" stroke=\"#f59e0b\" stroke-width=\"1\" opacity=\"0.4\"/>"
    ++ codes
        "<text x=\"200\" y=\"148\" font-family=\"Arial, sans-serif\" font-size=\"66\" font-weight=\"900\" fill=\"#f59e0b\" text-anchor=\"middle\">EPS</text>"
    ++ codes
        "<text x=\"200\" y=\"172\" font-family=\"Arial, sans-serif\" font-size=\"11\" font-weight=\"700\" fill=\"#e2e8f0\" text-anchor=\"middle\" letter-spacing=\"3\">PROOF OF SERVICE</text>"
    ++ codes
        "<line x1=\"60\" y1=\"183\" x2=\"340\" y2=\"183\" stroke=\"#f59e0b\" stroke-width=\"1\" opacity=\"0.4\"/>"
    ++ codes
        "<circle cx=\"200\" cy=\"230\" r=\"36\" fill=\"none\" stroke=\"#f59e0b\" stroke-width=\"2\" opacity=\"0.5\"/>"
    ++ codes
        "<circle cx=\"200\" cy=\"230\" r=\"30\" fill=\"none\" stroke=\"#f59e0b\" stroke-width=\"1\" opacity=\"0.25\"/>"
    ++ codes
        "<path d=\"M186 230 L196 242 L216 218\" fill=\"none\" stroke=\"#f59e0b\" stroke-width=\"3\" stroke-linecap=\"round\" stroke-linejoin=\"round\"/>"
    ++ codes
        "<text x=\"200\" y=\"292\" font-family=\"Arial, sans-serif\" font-size=\"9\" fill=\"#94a3b8\" text-anchor=\"middle\" letter-spacing=\"2\">HCS TOPIC</text>"
    ++ codes
        "<text x=\"200\" y=\"310\" font-family=\"monospace\" font-size=\"12\" font-weight=\"700\" fill=\"#34d399\" text-anchor=\"middle\">"

unfoldable pub svg_between : Text
svg_between =
    codes "</text>"
    ++ codes
        "<text x=\"200\" y=\"326\" font-family=\"Arial, sans-serif\" font-size=\"9\" fill=\"#94a3b8\" text-anchor=\"middle\" letter-spacing=\"2\">SEQUENCE #"

unfoldable pub svg_after : Text
svg_after =
    codes "</text>"
    ++ codes
        "<line x1=\"60\" y1=\"330\" x2=\"340\" y2=\"330\" stroke=\"#f59e0b\" stroke-width=\"1\" opacity=\"0.4\"/>"
    ++ codes
        "<text x=\"200\" y=\"350\" font-family=\"monospace\" font-size=\"9\" fill=\"#60a5fa\" text-anchor=\"middle\">youhavebeenserved.eth</text>"
    ++ codes
        "<text x=\"200\" y=\"364\" font-family=\"Arial, sans-serif\" font-size=\"7.5\" fill=\"#64748b\" text-anchor=\"middle\" letter-spacing=\"1\">ENSIP-25 COMPLIANT AI PROCESS SERVER</text>"
    ++ codes "<circle cx=\"167\" cy=\"378\" r=\"2\" fill=\"#f59e0b\"/>"
    ++ codes "<circle cx=\"182\" cy=\"378\" r=\"2\" fill=\"#f59e0b\"/>"
    ++ codes "<circle cx=\"200\" cy=\"378\" r=\"3\" fill=\"#f59e0b\"/>"
    ++ codes "<circle cx=\"218\" cy=\"378\" r=\"2\" fill=\"#f59e0b\"/>"
    ++ codes "<circle cx=\"233\" cy=\"378\" r=\"2\" fill=\"#f59e0b\"/>"
    ++ codes "</svg>"

-- The picture, of the `topic` and the `seq` of the query.
unfoldable pub nft_svg : Option Text → Option Text → Text
nft_svg topic seq =
    svg_before
    ++ esc (or_else topic (codes "0.0.9225885"))
    ++ svg_between
    ++ esc (or_else seq (codes "0"))
    ++ svg_after
