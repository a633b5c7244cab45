-- ===== src/Sgp22/Message/Tagged.antt =====
-- The check of a tag, on an object that was made with it (v2/).
use euicc_go.Prelude.{ℕ, ◌<◌, ◌≡◌, refl, Bytes}
use euicc_go.Prelude.Checked.{ok}
use euicc_go.Bertlv.Tag.{new_tag}
use euicc_go.Bertlv.Tag.New.{tag_if-new_tag}
use euicc_go.Bertlv.Tlv.{Children, object}
use euicc_go.Sgp22.Message.{check_tag}

pub check_tag-new_tag :
    (class form n : ℕ) (s : Bytes) (cs : Children)
    → class < 4
    → form < 2
    → n < 128
    → check_tag class form n (object (new_tag class form n) s cs) ≡ ok tt
check_tag-new_tag class form n s cs h h' h'' =
    rw ((tag_if-new_tag class form n class form n h h' h'').1 (refl, refl, refl)) refl
