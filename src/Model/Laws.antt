-- ===== src/Model/Laws.antt =====
-- Egress modes are printed and read back.
use xanh_tab.Prelude.{◌≡◌, refl, ap, some}
use xanh_tab.Text.{Text, to_ascii_lowercase}
use xanh_tab.Text.Laws.{to_ascii_lowercase_idem}
use xanh_tab.Model.{EgressMode, direct, tor, warp, wire_guard, proxy, display, mode_of, from_str}

pub from_str-display : (m : EgressMode) → from_str (display m) ≡ some m
unfolding from_str display
from_str-display direct = refl
from_str-display tor = refl
from_str-display warp = refl
from_str-display wire_guard = refl
from_str-display proxy = refl

-- Reading a mode does not look at the case of ASCII letters.
pub from_str-to_ascii_lowercase : (s : Text) → from_str (to_ascii_lowercase s) ≡ from_str s
unfolding from_str
from_str-to_ascii_lowercase s = ap mode_of (to_ascii_lowercase_idem s)
