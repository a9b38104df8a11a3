-- ===== src/Normalization/Tests.antt =====
-- A zero-width space inside a word.
use blue_tanuki.Base.{◌≡◌, refl, String, []}
use blue_tanuki.Normalization.{
  detect_control_chars, strip_control_chars, normalize_for_detection, control_names,
}
use blue_tanuki.Normalization.Laws.{normalize_for_detection-clean}

abbrev hidden : String
hidden = "r\u{200b}m"

hidden_stripped : strip_control_chars hidden ≡ "rm"
unfolding strip_control_chars control_names
hidden_stripped = refl

normalize_for_detection-clean_example :
    (detect_control_chars (normalize_for_detection (λ s. s) hidden).normalized_content ≡ [])
    × (strip_control_chars (normalize_for_detection (λ s. s) hidden).normalized_content
        ≡ (normalize_for_detection (λ s. s) hidden).normalized_content)
normalize_for_detection-clean_example = normalize_for_detection-clean (λ s. s) hidden
