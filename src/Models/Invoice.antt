-- ===== src/Models/Invoice.antt =====
-- backend/src/moadian/models/invoice.py: the invoice as a record, field by field. An optional
-- field is an `Option`; the field `in_` travels under its alias `in`.
pub mod Dump
pub mod Blanks
use moadian.Base.{Bool, Option, none, some, List, [], ◌∷◌, Text}
use moadian.Base.Int.{ℤ}
use moadian.Wire.Json.{Fields}

-- `ShippingGood`
pub record ShippingGood : Type 0 where
  pub sgid : Option Text
  pub sgt : Option Text

-- `InvoiceHeader`
pub record InvoiceHeader (F : Type 0) : Type 0 where
  pub taxid : Text
  pub indatim : ℤ
  pub ins : ℤ
  pub indati2m : Option ℤ
  pub inty : Option ℤ
  pub ft : Option ℤ
  pub inno : Option Text
  pub irtaxid : Option Text
  pub scln : Option Text
  pub setm : Option ℤ
  pub inp : Option ℤ
  pub billid : Option Text
  pub tins : Option Text
  pub bpc : Option Text
  pub scc : Option Text
  pub sbc : Option Text
  pub cap : Option ℤ
  pub bid : Option Text
  pub insp : Option ℤ
  pub tvop : Option ℤ
  pub tax17 : Option ℤ
  pub tprdis : Option ℤ
  pub tdis : Option ℤ
  pub tadis : Option ℤ
  pub tvam : Option ℤ
  pub todam : Option ℤ
  pub tbill : Option ℤ
  pub tob : Option ℤ
  pub tinb : Option Text
  pub bbc : Option Text
  pub bpn : Option Text
  pub crn : Option Text
  pub cdcn : Option Text
  pub cdcd : Option ℤ
  pub tonw : Option F
  pub torv : Option ℤ
  pub tocv : Option F
  pub tinc : Option Text
  pub lno : Option Text
  pub lrno : Option Text
  pub ocu : Option Text
  pub oci : Option Text
  pub dco : Option Text
  pub dci : Option Text
  pub tid : Option Text
  pub rid : Option Text
  pub lt : Option ℤ
  pub cno : Option Text
  pub did : Option Text
  pub sg : Option (List ShippingGood)
  pub asn : Option Text
  pub asd : Option ℤ
  pub in_ : Option Text
  pub an : Option Text
  pub insr : Option ℤ
  pub nti1 : Option Text
  pub nti2 : Option Text

-- `InvoiceBodyItem`, its two code fields as the field validator leaves them
pub record InvoiceBodyItem (F : Type 0) : Type 0 where
  pub sstid : Text
  pub sstt : Option Text
  pub mu : Option Text
  pub am : Option F
  pub fee : Option F
  pub cfee : Option F
  pub cut : Option Text
  pub exr : Option ℤ
  pub prdis : Option ℤ
  pub dis : Option ℤ
  pub adis : Option ℤ
  pub vra : Option F
  pub vam : Option ℤ
  pub odt : Option Text
  pub odr : Option F
  pub odam : Option ℤ
  pub olt : Option Text
  pub olr : Option F
  pub olam : Option ℤ
  pub consfee : Option ℤ
  pub spro : Option ℤ
  pub bros : Option ℤ
  pub tcpbs : Option ℤ
  pub cop : Option ℤ
  pub bsrn : Option Text
  pub vop : Option ℤ
  pub tsstam : Option ℤ
  pub nw : Option F
  pub ssrv : Option ℤ
  pub sscv : Option F
  pub cui : Option F
  pub hs : Option Text
  pub cpr : Option F
  pub sovat : Option ℤ
  pub vba : Option F

-- `InvoicePayment`
pub record InvoicePayment : Type 0 where
  pub iinn : Option Text
  pub acn : Option Text
  pub trmn : Option Text
  pub trn : Option Text
  pub pcn : Option Text
  pub pid : Option Text
  pub vatpid : Option Text
  pub vatbid : Option Text
  pub pdt : Option ℤ
  pub pmt : Option ℤ
  pub pv : Option ℤ

-- `Invoice`
pub record Invoice (F : Type 0) : Type 0 where
  pub header : InvoiceHeader F
  pub body : List (InvoiceBodyItem F)
  pub payments : List InvoicePayment
  pub extension : Option (List (Fields F))
