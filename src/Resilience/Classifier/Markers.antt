-- ===== src/Resilience/Classifier/Markers.antt =====
-- The constants of src/acquire_intel/resilience/classifier.py.
use acquire_intel.Prelude.{ℕ, List, [], ◌∷◌, Text, codes}

abbrev pub captcha_markers : List Text
captcha_markers =
    codes "captcha"
    ∷ codes "recaptcha"
    ∷ codes "hcaptcha"
    ∷ codes "are you a robot"
    ∷ codes "verify you are human"
    ∷ codes "just a moment"
    ∷ codes "checking your browser"
    ∷ codes "cf-challenge"
    ∷ codes "challenge-form"
    ∷ codes "enable javascript and"
    ∷ []

abbrev pub scan_limit : ℕ
scan_limit = 65536
