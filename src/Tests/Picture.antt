-- ===== src/Tests/Picture.antt =====
-- A query that holds markup.
use eps_dapp.Base.{◌≡◌, none, some, codes, count}
use eps_dapp.Picture.{nft_svg}
use eps_dapp.Picture.Escaped.{is_markup, svg_safe}

svg_safe_example :
    (count (is_markup b'<') (nft_svg (some (codes "<script>")) none)
      ≡ count (is_markup b'<') (nft_svg none none))
    × (count (is_markup b'>') (nft_svg (some (codes "<script>")) none)
        ≡ count (is_markup b'>') (nft_svg none none))
    × (count (is_markup b'"') (nft_svg (some (codes "<script>")) none)
        ≡ count (is_markup b'"') (nft_svg none none))
svg_safe_example = svg_safe (some (codes "<script>")) none
