-- ===== src/Examples.antt =====
-- Concrete values for the parameters of the models, and one small invoice.
pub mod Taxid
pub mod Auth
pub mod Serial
pub mod Rules
pub mod Pipeline
pub mod Api
pub mod Voiding
pub mod Config
pub mod Official
pub mod Mock
pub mod Store
pub mod Client
use moadian.Base.{
  ℕ, zero, suc, ◌+◌, ◌-◌, ◌*◌, ◌≡◌, refl, sym, ap, subst, Bool, true, false, Option, none, some,
  List, [], ◌∷◌, Text, codes, Result, ok, err, ok_injective, arith, String,
}
use moadian.Base.Int.{
  ℤ, pos, negsuc, ◌+ℤ◌, ◌-ℤ◌, ◌*ℤ◌, ltb_ℤ, leb_ℤ, eqb_ℤ, pos_part, neg_part, floor_div,
}
use moadian.Wire.Float.{FloatOps}
use moadian.Wire.Canonical.{show_int}
use moadian.Models.Invoice.{Invoice, InvoiceHeader, InvoiceBodyItem}
use moadian.Rules.Violations.{required, conditional, not_applicable, optional}
use moadian.Rules.Spec.{FieldRule, Section, PatternSpec, RuleSet, EnumRule}
use moadian.Rules.Arithmetic.Recompute.{RoundsNear}
use moadian.Taxid.Provider.{Calendar}

abbrev abs_ℤ : ℤ → ℤ
abs_ℤ (pos n) = pos n
abs_ℤ (negsuc n) = pos (suc n)

abbrev divide : ℤ → ℤ → ℤ
divide a (pos n) = floor_div a n
divide a (negsuc n) = pos 0

abbrev sum_all : List ℤ → ℤ
sum_all [] = pos 0
sum_all (x ∷ xs) = x +ℤ sum_all xs

-- Floats that are whole numbers.
abbrev pub whole : FloatOps
whole = record {
  Float = ℤ;
  of_int = λ n. n;
  add = λ a b. a +ℤ b;
  sub = λ a b. a -ℤ b;
  mul = λ a b. a *ℤ b;
  div = divide;
  abs = abs_ℤ;
  total = sum_all;
  lt = ltb_ℤ;
  le = leb_ℤ;
  eq = eqb_ℤ;
  round = ok;
  repr = λ n. some (show_int n);
}

no_gap : (n : ℤ) → ltb_ℤ (pos 1) (abs_ℤ (n -ℤ n)) ≡ false
unfolding ◌-ℤ◌
no_gap (pos n) = ground arith
no_gap (negsuc n) = ground arith

pub whole_near : RoundsNear whole
whole_near x n h =
    subst (λ m. ltb_ℤ (pos 1) (abs_ℤ (m -ℤ x)) ≡ false) (ok_injective x n h) (no_gap x)

-- Moments are epoch seconds, and the zone moves nothing.
abbrev pub seconds : Calendar
seconds = record {
  Moment = ℤ;
  has_offset = λ t. true;
  replace_tehran = λ t. t;
  astimezone_tehran = λ t. t;
  floor_timestamp = λ t. t;
  from_millis = λ m. ok (floor_div m 1000);
}

-- 2023-01-01 in Tehran, in seconds.
abbrev pub new_year : ℤ
new_year = pos 1_672_518_600

abbrev pub memory : Text
memory = codes "A111Bc"

abbrev pub item : InvoiceBodyItem ℤ
item = record {
  sstid = codes "2710000138624";
  sstt = some (codes "Unit");
  mu = some (codes "1627");
  am = some (pos 2);
  fee = some (pos 50);
  cfee = none;
  cut = none;
  exr = none;
  prdis = some (pos 100);
  dis = some (pos 0);
  adis = some (pos 100);
  vra = some (pos 0);
  vam = some (pos 0);
  odt = none;
  odr = none;
  odam = none;
  olt = none;
  olr = none;
  olam = none;
  consfee = none;
  spro = none;
  bros = none;
  tcpbs = none;
  cop = none;
  bsrn = none;
  vop = none;
  tsstam = some (pos 100);
  nw = none;
  ssrv = none;
  sscv = none;
  cui = none;
  hs = none;
  cpr = none;
  sovat = none;
  vba = none;
}

abbrev pub header : InvoiceHeader ℤ
header = record {
  taxid = [];
  indatim = pos 1_672_518_600_000;
  ins = pos 1;
  indati2m = none;
  inty = some (pos 1);
  ft = none;
  inno = none;
  irtaxid = none;
  scln = none;
  setm = some (pos 3);
  inp = some (pos 1);
  billid = none;
  tins = some (codes "10100302746");
  bpc = none;
  scc = none;
  sbc = none;
  cap = some (pos 60);
  bid = none;
  insp = some (pos 40);
  tvop = none;
  tax17 = none;
  tprdis = some (pos 100);
  tdis = some (pos 0);
  tadis = some (pos 100);
  tvam = some (pos 0);
  todam = some (pos 0);
  tbill = some (pos 100);
  tob = none;
  tinb = none;
  bbc = none;
  bpn = none;
  crn = none;
  cdcn = none;
  cdcd = none;
  tonw = none;
  torv = none;
  tocv = none;
  tinc = none;
  lno = none;
  lrno = none;
  ocu = none;
  oci = none;
  dco = none;
  dci = none;
  tid = none;
  rid = none;
  lt = none;
  cno = none;
  did = none;
  sg = none;
  asn = none;
  asd = none;
  in_ = none;
  an = none;
  insr = none;
  nti1 = none;
  nti2 = none;
}

abbrev pub invoice : Invoice ℤ
invoice = record { header = header; body = item ∷ []; payments = []; extension = none }

-- An invoice that no pattern's rules are known for.
abbrev pub foreign : Invoice ℤ
foreign = record invoice { header = record header { inp = some (pos 9) } }

abbrev pub must : FieldRule
must = record { name = "tins"; obligation = required; when = none; by_type = [] }

abbrev pub never : FieldRule
never = record { name = "scln"; obligation = not_applicable; when = none; by_type = [] }

abbrev pub may : FieldRule
may = record { name = "cap"; obligation = conditional; when = some "setm == 3"; by_type = [] }

abbrev pub priced : FieldRule
priced = record { name = "fee"; obligation = required; when = none; by_type = [] }

abbrev pub sale : PatternSpec
sale = record {
  number = pos 1;
  header = ("tins", must) ∷ ("scln", never) ∷ ("cap", may) ∷ [];
  body = ("fee", priced) ∷ [];
  payment = [];
  sg = [];
  types = pos 1 ∷ [];
  coverage = "complete";
}

abbrev pub rules : RuleSet
rules = record {
  version = pos 1;
  patterns = (pos 1, sale) ∷ [];
  enums = record { name = "inty"; values = pos 1 ∷ pos 2 ∷ [] } ∷ [];
  default_obligation = optional;
}

-- An invoice with no lines.
abbrev pub bare : Invoice ℤ
bare = record invoice { body = [] }
