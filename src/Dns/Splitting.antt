-- ===== src/Dns/Splitting.antt =====
-- A splitting at commas, for the tests of the list of addresses.
use tr069_manager.Base.{
  ◌≡◌, refl, sym, ap, ◌∙◌, false, List, [], ◌∷◌, ◌++◌, append-nil, append_assoc, arith, ◌==◌,
  if◌then◌else◌, CString, All, is_empty,
}
use tr069_manager.Dns.Session.{HasNoComma, csv, IsPlain, SplitsCsv}

-- The texts between the commas, after what was read of the first one.
split_from : CString → CString → List CString
split_from acc [] = acc ∷ []
split_from acc (b ∷ text) =
    let rest = split_from [] text in
    let more = split_from (acc ++ b ∷ []) text in if b == b',' then acc ∷ rest else more

unfoldable pub split_csv : CString → List CString
unfolding split_from
split_csv [] = []
split_csv (b ∷ text) = split_from [] (b ∷ text)

split_from-last : (acc text : CString) → HasNoComma text → split_from acc text ≡ (acc ++ text) ∷ []
unfolding split_from
split_from-last acc [] plain = ap (λ t. t ∷ []) (sym (append-nil acc))
split_from-last acc (b ∷ text) plain = rw plain.0 (
    split_from-last (acc ++ b ∷ []) text plain.1
    ∙ ap (λ t. t ∷ []) (append_assoc acc (b ∷ []) text))

split_from-comma :
    (acc text rest : CString)
    → HasNoComma text
    → split_from acc (text ++ b',' ∷ rest) ≡ (acc ++ text) ∷ split_from [] rest
unfolding split_from
split_from-comma acc [] rest plain = ap (λ t. t ∷ split_from [] rest) (sym (append-nil acc))
split_from-comma acc (b ∷ text) rest plain = rw plain.0 (
    split_from-comma (acc ++ b ∷ []) text rest plain.1
    ∙ ap (λ t. t ∷ split_from [] rest) (append_assoc acc (b ∷ []) text))

split_from-csv :
    (ip : CString) (l : List CString) → All IsPlain (ip ∷ l) → split_from [] (csv (ip ∷ l)) ≡ ip ∷ l
split_from-csv ip [] plain = split_from-last [] ip plain.0.1
split_from-csv ip (t ∷ l) plain =
    split_from-comma [] ip (csv (t ∷ l)) plain.0.1 ∙ ap (λ r. ip ∷ r) (split_from-csv t l plain.1)

split_csv-full : (text : CString) → is_empty text ≡ false → split_csv text ≡ split_from [] text
unfolding split_csv
split_csv-full [] full = ground (arith, full)
split_csv-full (b ∷ text) full = refl

full-csv : (ip : CString) (l : List CString) → is_empty ip ≡ false → is_empty (csv (ip ∷ l)) ≡ false
full-csv [] l full = ground (arith, full)
full-csv (b ∷ ip) [] full = refl
full-csv (b ∷ ip) (t ∷ l) full = refl

pub split_csv-SplitsCsv : SplitsCsv split_csv
unfolding split_csv
split_csv-SplitsCsv [] plain = refl
split_csv-SplitsCsv (ip ∷ l) plain =
    split_csv-full (csv (ip ∷ l)) (full-csv ip l plain.0.0) ∙ split_from-csv ip l plain
