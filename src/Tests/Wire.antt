-- ===== src/Tests/Wire.antt =====
-- Byte orders and strings.
use qt_linux_im_project.Base.{◌≡◌, refl, [], ◌∷◌, codes, take}
use qt_linux_im_project.Wire.Endian.{
  Endian, little, big, store64, load64, host_to_network64, network_to_host64, be64,
}
use qt_linux_im_project.Wire.Text.{text_of, c_field, c_str, terminate}

first_bytes : store64 little (host_to_network64 little 258) ≡ 0 ∷ 0 ∷ 0 ∷ 0 ∷ 0 ∷ 0 ∷ 1 ∷ 2 ∷ []
unfolding store64 host_to_network64 qt_linux_im_project.Wire.Endian.swap64
    qt_linux_im_project.Wire.Endian.htonl
first_bytes = refl

cut : text_of 4 (c_field 4 (codes "alice")) ≡ codes "ali"
unfolding text_of take qt_linux_im_project.Wire.Text.bounded_strnlen c_field
    qt_linux_im_project.Wire.Text.strncpy
cut = refl
