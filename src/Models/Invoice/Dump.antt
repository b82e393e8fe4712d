-- ===== src/Models/Invoice/Dump.antt =====
-- `model_dump(exclude_none=True, by_alias=True)` of pydantic on the models of invoice.py: the fields
-- in their order, those that are `None` left out, under their wire names.
use moadian.Base.{Option, none, some, List, [], ◌∷◌, String}
use moadian.Wire.Json.{Value, Items, Fields, int, flt, str, arr, obj, nil, cons, end, field}
use moadian.Models.Invoice.{ShippingGood, InvoiceHeader, InvoiceBodyItem, InvoicePayment, Invoice}

-- One optional field before the others.
abbrev pub put : {F A : Type 0} → String → (A → Value F) → Option A → Fields F → Fields F
put key to_value none rest = rest
put key to_value (some a) rest = field key (to_value a) rest

-- A list of nested models.
abbrev pub items : {F A : Type 0} → (A → Fields F) → List A → Items F
items f [] = nil
items f (a ∷ as') = cons (obj (f a)) (items f as')

unfoldable pub dump_shipping_good : {F : Type 0} → ShippingGood → Fields F
dump_shipping_good r = put "sgid" str r.sgid (put "sgt" str r.sgt (end))

abbrev put_goods : {F : Type 0} → String → Option (List ShippingGood) → Fields F → Fields F
put_goods key goods rest = put key (λ gs. arr (items dump_shipping_good gs)) goods rest

unfoldable pub dump_header : {F : Type 0} → InvoiceHeader F → Fields F
dump_header r = field "taxid" (str r.taxid) (
    field "indatim" (int r.indatim) (
      field "ins" (int r.ins) (
        put "indati2m" int r.indati2m (
          put "inty" int r.inty (
            put "ft" int r.ft (
              put "inno" str r.inno (
                put "irtaxid" str r.irtaxid (
                  put "scln" str r.scln (
                    put "setm" int r.setm (
                      put "inp" int r.inp (
                        put "billid" str r.billid (
                          put "tins" str r.tins (
                            put "bpc" str r.bpc (
                              put "scc" str r.scc (
                                put "sbc" str r.sbc (
                                  put "cap" int r.cap (
                                    put "bid" str r.bid (
                                      put "insp" int r.insp (
                                        put "tvop" int r.tvop (
                                          put "tax17" int r.tax17 (
                                            put "tprdis" int r.tprdis (
                                              put "tdis" int r.tdis (
                                                put "tadis" int r.tadis (
                                                  put "tvam" int r.tvam (
                                                    put "todam" int r.todam (
                                                      put "tbill" int r.tbill (
                                                        put "tob" int r.tob (
                                                          put "tinb" str r.tinb (
                                                            put "bbc" str r.bbc (
                                                            put "bpn" str r.bpn (
                                                            put "crn" str r.crn (
                                                            put "cdcn" str r.cdcn (
                                                            put "cdcd" int r.cdcd (
                                                            put "tonw" flt r.tonw (
                                                            put "torv" int r.torv (
                                                            put "tocv" flt r.tocv (
                                                            put "tinc" str r.tinc (
                                                            put "lno" str r.lno (
                                                            put "lrno" str r.lrno (
                                                            put "ocu" str r.ocu (
                                                            put "oci" str r.oci (
                                                            put "dco" str r.dco (
                                                            put "dci" str r.dci (
                                                            put "tid" str r.tid (
                                                            put "rid" str r.rid (
                                                            put "lt" int r.lt (
                                                            put "cno" str r.cno (
                                                            put "did" str r.did (
                                                            put_goods "sg" r.sg (
                                                            put "asn" str r.asn (
                                                            put "asd" int r.asd (
                                                            put "in" str r.in_ (
                                                            put "an" str r.an (
                                                            put "insr" int r.insr (
                                                            put "nti1" str r.nti1
                                                            (put "nti2" str r.nti2 (end)))))))))))))
                                                            ))))))))))))))))))))))))))))))))))))))))
                                                            ))))

unfoldable pub dump_item : {F : Type 0} → InvoiceBodyItem F → Fields F
dump_item r = field "sstid" (str r.sstid) (
    put "sstt" str r.sstt (
      put "mu" str r.mu (
        put "am" flt r.am (
          put "fee" flt r.fee (
            put "cfee" flt r.cfee (
              put "cut" str r.cut (
                put "exr" int r.exr (
                  put "prdis" int r.prdis (
                    put "dis" int r.dis (
                      put "adis" int r.adis (
                        put "vra" flt r.vra (
                          put "vam" int r.vam (
                            put "odt" str r.odt (
                              put "odr" flt r.odr (
                                put "odam" int r.odam (
                                  put "olt" str r.olt (
                                    put "olr" flt r.olr (
                                      put "olam" int r.olam (
                                        put "consfee" int r.consfee (
                                          put "spro" int r.spro (
                                            put "bros" int r.bros (
                                              put "tcpbs" int r.tcpbs (
                                                put "cop" int r.cop (
                                                  put "bsrn" str r.bsrn (
                                                    put "vop" int r.vop (
                                                      put "tsstam" int r.tsstam (
                                                        put "nw" flt r.nw (
                                                          put "ssrv" int r.ssrv (
                                                            put "sscv" flt r.sscv (
                                                            put "cui" flt r.cui (
                                                            put "hs" str r.hs (
                                                            put "cpr" flt r.cpr (
                                                            put "sovat" int r.sovat (
                                                            put "vba" flt r.vba
                                                            (end)))))))))))))))))))))))))))))))))))

unfoldable pub dump_payment : {F : Type 0} → InvoicePayment → Fields F
dump_payment r = put "iinn" str r.iinn (
    put "acn" str r.acn (
      put "trmn" str r.trmn (
        put "trn" str r.trn (
          put "pcn" str r.pcn (
            put "pid" str r.pid (
              put "vatpid" str r.vatpid (
                put "vatbid" str r.vatbid
                  (put "pdt" int r.pdt (put "pmt" int r.pmt (put "pv" int r.pv (end)))))))))))

-- The whole invoice.
unfoldable pub dump_invoice : {F : Type 0} → Invoice F → Fields F
unfolding dump_header dump_item dump_payment
dump_invoice invoice = field "header" (obj (dump_header invoice.header)) (
    field "body" (arr (items dump_item invoice.body)) (
      field "payments" (arr (items dump_payment invoice.payments))
        (put "extension" (λ es. arr (items (λ e. e) es)) invoice.extension end)))
