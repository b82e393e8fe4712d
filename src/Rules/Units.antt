-- ===== src/Rules/Units.antt =====
-- backend/src/moadian/units.py: the organization's unit-of-measure codes, RC_UMGS.ST_V1.18.
use moadian.Base.{
  ℕ, ◌≡◌, refl, Bool, true, false, not, ◌&&◌, Option, none, some, List, [], ◌∷◌, String, Text,
  codes, text_eq, is_ascii_digit, all, length, leb, if◌then◌else◌, is_blank, arith, Bool-cases, inl,
  inr, subst, text_eq_sound,
}
use moadian.Wire.Float.{FloatOps}
use moadian.Rules.Engine.{strip, check_mu}

-- `DEFAULT_UNIT`
abbrev pub default_unit : String
default_unit = "1627"

-- `UNITS`, code and name (as code points), in the document's own row order.
abbrev units : List (String × Text)
units =
    ("1611", 1604 ∷ 1606 ∷ 1711 ∷ 1607 ∷ [])
    ∷ ("1612", 1593 ∷ 1583 ∷ 1604 ∷ [])
    ∷ ("1613", 1580 ∷ 1593 ∷ 1576 ∷ 1607 ∷ [])
    ∷ ("1618", 1578 ∷ 1608 ∷ 1662 ∷ [])
    ∷ ("1619", 1587 ∷ 1578 ∷ [])
    ∷ ("1620", 1583 ∷ 1587 ∷ 1578 ∷ [])
    ∷ ("1624", 1705 ∷ 1575 ∷ 1585 ∷ 1578 ∷ 1606 ∷ [])
    ∷ ("1627", 1593 ∷ 1583 ∷ 1583 ∷ [])
    ∷ ("1628", 1576 ∷ 1587 ∷ 1578 ∷ 1607 ∷ [])
    ∷ ("1629", 1662 ∷ 1575 ∷ 1705 ∷ 1578 ∷ [])
    ∷ ("1631", 1583 ∷ 1587 ∷ 1578 ∷ 1711 ∷ 1575 ∷ 1607 ∷ [])
    ∷ ("1640", 1578 ∷ 1582 ∷ 1578 ∷ 1607 ∷ [])
    ∷ ("1641", 1585 ∷ 1608 ∷ 1604 ∷ [])
    ∷ ("1642", 1591 ∷ 1575 ∷ 1602 ∷ 1607 ∷ [])
    ∷ ("1643", 1580 ∷ 1601 ∷ 1578 ∷ [])
    ∷ ("1645", 1605 ∷ 1578 ∷ 1585 ∷ 32 ∷ 1605 ∷ 1585 ∷ 1576 ∷ 1593 ∷ [])
    ∷ ("1649", 1662 ∷ 1575 ∷ 1604 ∷ 1578 ∷ [])
    ∷ ("1661", 1583 ∷ 1608 ∷ 1580 ∷ 1740 ∷ 1606 ∷ [])
    ∷ ("1668", 1581 ∷ 1604 ∷ 1602 ∷ 1607 ∷ 32 ∷ 40 ∷ 1585 ∷ 1740 ∷ 1606 ∷ 1711 ∷ 41 ∷ [])
    ∷ ("1673", 1602 ∷ 1585 ∷ 1575 ∷ 1589 ∷ [])
    ∷ (
      "1694",
      1602 ∷ 1585 ∷ 1575 ∷ 1589 ∷ 1607 ∷ 32 ∷ 40 ∷ 98 ∷ 117 ∷ 110 ∷ 100 ∷ 108 ∷ 101 ∷ 41 ∷ [],
    )
    ∷ ("1637", 1604 ∷ 1740 ∷ 1578 ∷ 1585 ∷ [])
    ∷ ("1650", 1587 ∷ 1575 ∷ 1588 ∷ 1607 ∷ [])
    ∷ ("1683", 1705 ∷ 1662 ∷ 1587 ∷ 1608 ∷ 1604 ∷ [])
    ∷ ("1656", 1576 ∷ 1606 ∷ 1583 ∷ 1740 ∷ 1604 ∷ [])
    ∷ ("1630", 1581 ∷ 1604 ∷ 1602 ∷ 1607 ∷ 32 ∷ 40 ∷ 1585 ∷ 1608 ∷ 1604 ∷ 41 ∷ [])
    ∷ ("163", 1602 ∷ 1575 ∷ 1604 ∷ 1576 ∷ [])
    ∷ ("1660", 1588 ∷ 1575 ∷ 1606 ∷ 1607 ∷ [])
    ∷ ("1647", 1605 ∷ 1578 ∷ 1585 ∷ 32 ∷ 1605 ∷ 1705 ∷ 1593 ∷ 1576 ∷ [])
    ∷ ("1689", 1579 ∷ 1608 ∷ 1576 ∷ [])
    ∷ ("1690", 1606 ∷ 1740 ∷ 1605 ∷ 32 ∷ 1583 ∷ 1608 ∷ 1580 ∷ 1740 ∷ 1606 ∷ [])
    ∷ ("1635", 1602 ∷ 1585 ∷ 1602 ∷ 1585 ∷ 1607 ∷ [])
    ∷ ("164", 1705 ∷ 1740 ∷ 1604 ∷ 1608 ∷ 1711 ∷ 1585 ∷ 1605 ∷ [])
    ∷ ("1638", 1576 ∷ 1591 ∷ 1585 ∷ 1740 ∷ [])
    ∷ ("161", 1576 ∷ 1585 ∷ 1711 ∷ [])
    ∷ ("1625", 1587 ∷ 1591 ∷ 1604 ∷ [])
    ∷ ("1654", 1608 ∷ 1585 ∷ 1602 ∷ [])
    ∷ ("1646", 1588 ∷ 1575 ∷ 1582 ∷ 1607 ∷ [])
    ∷ ("1644", 1602 ∷ 1608 ∷ 1591 ∷ 1740 ∷ [])
    ∷ ("1617", 1580 ∷ 1604 ∷ 1583 ∷ [])
    ∷ ("162", 1578 ∷ 1740 ∷ 1608 ∷ 1576 ∷ [])
    ∷ ("165", 1605 ∷ 1578 ∷ 1585 ∷ [])
    ∷ ("1610", 1705 ∷ 1604 ∷ 1575 ∷ 1601 ∷ [])
    ∷ ("1615", 1705 ∷ 1740 ∷ 1587 ∷ 1607 ∷ [])
    ∷ ("1680", 1591 ∷ 1594 ∷ 1585 ∷ 1575 ∷ [])
    ∷ ("1639", 1576 ∷ 1588 ∷ 1705 ∷ 1607 ∷ [])
    ∷ ("1614", 1711 ∷ 1575 ∷ 1604 ∷ 1606 ∷ [])
    ∷ (
      "1687",
      1601 ∷ 1575 ∷ 1602 ∷ 1583 ∷ 32 ∷ 1576 ∷ 1587 ∷ 1578 ∷ 1607 ∷ 32 ∷ 1576 ∷ 1606 ∷ 1583 ∷ 1740
          ∷ [],
    )
    ∷ (
      "1693",
      1705 ∷ 1575 ∷ 1585 ∷ 1578 ∷ 1606 ∷ 32 ∷ 40 ∷ 99 ∷ 97 ∷ 115 ∷ 101 ∷ 32 ∷ 109 ∷ 97 ∷ 115 ∷ 116
          ∷ 101 ∷ 114 ∷ 41 ∷ [],
    )
    ∷ ("166", 1589 ∷ 1601 ∷ 1581 ∷ 1607 ∷ [])
    ∷ ("1666", 1605 ∷ 1582 ∷ 1586 ∷ 1606 ∷ [])
    ∷ ("1626", 1578 ∷ 1575 ∷ 1606 ∷ 1705 ∷ 1585 ∷ [])
    ∷ ("1648", 1583 ∷ 1576 ∷ 1607 ∷ [])
    ∷ ("1684", 1587 ∷ 1576 ∷ 1583 ∷ [])
    ∷ ("169", 1578 ∷ 1606 ∷ [])
    ∷ ("1651", 1576 ∷ 1575 ∷ 1606 ∷ 1705 ∷ 1607 ∷ [])
    ∷ ("1633", 1587 ∷ 1740 ∷ 1604 ∷ 1606 ∷ 1583 ∷ 1585 ∷ [])
    ∷ ("1679", 1601 ∷ 1608 ∷ 1578 ∷ 32 ∷ 1605 ∷ 1585 ∷ 1576 ∷ 1593 ∷ [])
    ∷ ("168", 1581 ∷ 1604 ∷ 1576 ∷ [])
    ∷ ("1665", 1588 ∷ 1740 ∷ 1578 ∷ [])
    ∷ ("1659", 1670 ∷ 1604 ∷ 1740 ∷ 1705 ∷ [])
    ∷ ("1636", 1580 ∷ 1575 ∷ 1605 ∷ [])
    ∷ ("1622", 1711 ∷ 1585 ∷ 1605 ∷ [])
    ∷ ("1616", 1606 ∷ 1582 ∷ [])
    ∷ ("1652", 1588 ∷ 1593 ∷ 1604 ∷ 1607 ∷ [])
    ∷ ("1678", 1602 ∷ 1740 ∷ 1585 ∷ 1575 ∷ 1591 ∷ [])
    ∷ ("16100", 1605 ∷ 1740 ∷ 1604 ∷ 1740 ∷ 32 ∷ 1604 ∷ 1740 ∷ 1578 ∷ 1585 ∷ [])
    ∷ ("16101", 1605 ∷ 1740 ∷ 1604 ∷ 1740 ∷ 32 ∷ 1605 ∷ 1578 ∷ 1585 ∷ [])
    ∷ ("16102", 1605 ∷ 1740 ∷ 1604 ∷ 1740 ∷ 32 ∷ 1711 ∷ 1585 ∷ 1605 ∷ [])
    ∷ ("16103", 1587 ∷ 1575 ∷ 1593 ∷ 1578 ∷ [])
    ∷ ("16104", 1585 ∷ 1608 ∷ 1586 ∷ [])
    ∷ ("16105", 1578 ∷ 1606 ∷ 32 ∷ 1705 ∷ 1740 ∷ 1604 ∷ 1608 ∷ 1605 ∷ 1578 ∷ 1585 ∷ [])
    ∷ ("1669", 1705 ∷ 1740 ∷ 1604 ∷ 1608 ∷ 1608 ∷ 1575 ∷ 1578 ∷ 32 ∷ 1587 ∷ 1575 ∷ 1593 ∷ 1578 ∷ [])
    ∷ ("1676", 1606 ∷ 1601 ∷ 1585 ∷ [])
    ∷ ("16110", 1579 ∷ 1575 ∷ 1606 ∷ 1740 ∷ 1607 ∷ [])
    ∷ ("16111", 1583 ∷ 1602 ∷ 1740 ∷ 1602 ∷ 1607 ∷ [])
    ∷ ("16112", 1605 ∷ 1575 ∷ 1607 ∷ [])
    ∷ ("16113", 1587 ∷ 1575 ∷ 1604 ∷ [])
    ∷ ("16114", 1602 ∷ 1591 ∷ 1593 ∷ 1607 ∷ [])
    ∷ ("16115", 1587 ∷ 1575 ∷ 1606 ∷ 1578 ∷ 1740 ∷ 32 ∷ 1605 ∷ 1578 ∷ 1585 ∷ [])
    ∷ (
      "16116",
      1587 ∷ 1575 ∷ 1606 ∷ 1578 ∷ 1740 ∷ 32 ∷ 1605 ∷ 1578 ∷ 1585 ∷ 32 ∷ 1605 ∷ 1585 ∷ 1576 ∷ 1593
          ∷ [],
    )
    ∷ ("1632", 1601 ∷ 1585 ∷ 1608 ∷ 1606 ∷ 1583 ∷ [])
    ∷ ("1653", 1608 ∷ 1575 ∷ 1581 ∷ 1583 ∷ [])
    ∷ ("16108", 1604 ∷ 1740 ∷ 1608 ∷ 1575 ∷ 1606 ∷ [])
    ∷ ("16117", 1606 ∷ 1608 ∷ 1576 ∷ 1578 ∷ [])
    ∷ ("16118", 1605 ∷ 1711 ∷ 1575 ∷ 32 ∷ 1608 ∷ 1575 ∷ 1578 ∷ 32 ∷ 1587 ∷ 1575 ∷ 1593 ∷ 1578 ∷ [])
    ∷ (
      "16119",
      1711 ∷ 1740 ∷ 1711 ∷ 1575 ∷ 32 ∷ 1576 ∷ 1575 ∷ 1740 ∷ 1578 ∷ 32 ∷ 1576 ∷ 1585 ∷ 32 ∷ 1579
          ∷ 1575 ∷ 1606 ∷ 1740 ∷ 1607 ∷ [],
    )
    ∷ ("1681", 1608 ∷ 1740 ∷ 1575 ∷ 1604 ∷ [])
    ∷ ("1667", 1581 ∷ 1604 ∷ 1602 ∷ 1607 ∷ 32 ∷ 40 ∷ 1583 ∷ 1740 ∷ 1587 ∷ 1705 ∷ 41 ∷ [])
    ∷ ("16120", 1606 ∷ 1587 ∷ 1582 ∷ 1607 ∷ 32 ∷ 40 ∷ 1580 ∷ 1604 ∷ 1583 ∷ 41 ∷ [])
    ∷ ("16121", 1606 ∷ 1601 ∷ 1585 ∷ 45 ∷ 1587 ∷ 1575 ∷ 1593 ∷ 1578 ∷ [])
    ∷ ("16122", 1705 ∷ 1740 ∷ 1604 ∷ 1608 ∷ 1605 ∷ 1578 ∷ 1585 ∷ [])
    ∷ ("16125", 1570 ∷ 1605 ∷ 1662 ∷ 1585 ∷ [])
    ∷ ("16126", 1605 ∷ 1740 ∷ 1604 ∷ 1740 ∷ 32 ∷ 1570 ∷ 1605 ∷ 1662 ∷ 1585 ∷ [])
    ∷ ("16127", 1605 ∷ 1579 ∷ 1602 ∷ 1575 ∷ 1604 ∷ [])
    ∷ ("16128", 1587 ∷ 1740 ∷ 1585 ∷ [])
    ∷ ("16129", 1583 ∷ 1601 ∷ 1593 ∷ 1607 ∷ 32 ∷ 40 ∷ 116 ∷ 105 ∷ 109 ∷ 101 ∷ 41 ∷ [])
    ∷ ("16130", 1605 ∷ 1711 ∷ 1575 ∷ 32 ∷ 1740 ∷ 1608 ∷ 1606 ∷ 1740 ∷ 1578 ∷ [])
    ∷ ("16131", 1705 ∷ 1575 ∷ 1583 ∷ 1585 ∷ [])
    ∷ ("16132", 1662 ∷ 1585 ∷ 1587 ∷ [])
    ∷ ("16133", 1576 ∷ 1604 ∷ 1608 ∷ 1705 ∷ [])
    ∷ ("16134", 1606 ∷ 1601 ∷ 1585 ∷ 45 ∷ 1605 ∷ 1575 ∷ 1607 ∷ [])
    ∷ []

-- `UNITS.get(code)`, on the code as it was typed.
unfoldable pub find_unit : Text → List (String × Text) → Option Text
find_unit code [] = none
find_unit code ((k, name) ∷ rest) =
    if text_eq (codes k) code then some name else find_unit code rest

-- `unit_name`: `code or ""`, stripped.
unfoldable pub unit_name : Option Text → Option Text
unit_name none = find_unit [] units
unit_name (some code) = find_unit (strip code) units

abbrev is_some : Option Text → Bool
is_some none = false
is_some (some name) = true

-- Membership in `KNOWN_MU_CODES`.
unfoldable pub is_known_unit : Text → Bool
unfolding find_unit
is_known_unit code = is_some (find_unit code units)

-- A numeral of at most eight ASCII digits that `strip` leaves alone.
abbrev is_clean : Text → Bool
is_clean code =
    all is_ascii_digit code
    && (leb (length code) 8 && (not (is_blank code) && text_eq (strip code) code))

all_codes : (Text → Bool) → List (String × Text) → Bool
all_codes p [] = true
all_codes p ((c, name) ∷ table) = p (codes c) && all_codes p table

table_clean : all_codes is_clean units ≡ true
unfolding all_codes
table_clean = refl

-- A test that holds of every code of the table holds of a text that the table knows.
found_code :
    (p : Text → Bool) (code : Text) (table : List (String × Text))
    → all_codes p table ≡ true
    → is_some (find_unit code table) ≡ true
    → p code ≡ true
unfolding find_unit all_codes
found_code p code [] h k = cc
found_code p code ((c, name) ∷ table) h k = elim (Bool-cases (text_eq (codes c) code)) [
  | inl same ↦ subst (λ t. p t ≡ true) (text_eq_sound (codes c) code same) (ground arith)
  | inr other ↦ found_code p code table (ground arith) (rw other at k)
]

-- A code of the table passes the `mu` check of the rule engine as it stands: it is digits, short
-- enough, unchanged by `strip` and known; so is the default unit.
pub check_mu-known :
    (ops : FloatOps) (code : Text) (index : ℕ)
    → is_known_unit code ≡ true
    → (check_mu ops is_known_unit (some code) index ≡ [])
      × (is_known_unit (codes default_unit) ≡ true)
unfolding check_mu
check_mu-known ops code index h =
    let good = found_code is_clean code units table_clean (unfold is_known_unit in h) in
    let same = text_eq_sound (strip code) code (ground arith) in
    (rw same (ground arith), unfold is_known_unit in refl)
