-- ===== src/Web/Patch.antt =====
-- web.go: makeHTMLPatch, and live.js: applyPatch. A document is the list of its runes; what they are
-- as bytes or as code units of JavaScript is not looked at.
use gotst.Prelude.{
  suc, ℕ, ◌+◌, ◌-◌, List, [], ◌∷◌, ◌++◌, length, take, drop, ltb, eqb, if◌then◌else◌,
}

-- `htmlPatch`, without the number of the message.
pub record HtmlPatch : Type 0 where
  pub prefix : ℕ
  pub suffix : ℕ
  pub insert : List ℕ

-- The loop for `prefix`: how many runes agree.
unfoldable pub common_prefix : List ℕ → List ℕ → ℕ
common_prefix [] new = 0
common_prefix (a ∷ as') [] = 0
common_prefix (a ∷ as') (b ∷ bs) =
    let rest = common_prefix as' bs in if eqb a b then suc rest else 0

abbrev pub backwards : List ℕ → List ℕ
backwards [] = []
backwards (a ∷ as') = backwards as' ++ (a ∷ [])

-- The loop for `suffix`: how many runes agree from the end on, short of the prefix.
unfoldable pub common_suffix : ℕ → List ℕ → List ℕ → ℕ
unfolding common_prefix
common_suffix prefix old new =
    common_prefix (take (length old - prefix) (backwards old))
      (take (length new - prefix) (backwards new))

unfoldable pub make_html_patch : List ℕ → List ℕ → HtmlPatch
unfolding common_prefix common_suffix
make_html_patch old new =
    let prefix = common_prefix old new in
    let suffix = common_suffix prefix old new in
    record {
      prefix = prefix;
      suffix = suffix;
      insert = take (length new - suffix - prefix) (drop prefix new);
    }

-- `slice` from `length - suffix` on; a start below zero counts from the end.
unfoldable pub slice_end : ℕ → List ℕ → List ℕ
slice_end suffix old =
    if ltb (length old) suffix
    then drop (length old + length old - suffix) old
    else drop (length old - suffix) old

-- `applyPatch` on the document.
unfoldable pub apply_patch : List ℕ → HtmlPatch → List ℕ
unfolding slice_end
apply_patch old patch =
    take patch.prefix old
    ++ patch.insert
    ++ (if eqb patch.suffix 0 then [] else slice_end patch.suffix old)
