-- ===== src/Hidraw.antt =====
-- src/libratbag-hidraw.c: the reports that a device declares in its HID report descriptor. A
-- descriptor is the list of its bytes, as the two ioctls of a call give it, or `none` if they
-- fail; the opening of the node, and the transfer of reports, are left out.
pub mod Keys
pub mod Descriptor
use libratbag.Base.{
  ℕ, zero, suc, ◌+◌, ◌*◌, bit_and, Bool, true, false, Option, none, some, List, [], ◌∷◌, ltb, ◌==◌,
  if◌then◌else◌, length, get_elem?, set, take, replicate, Outcome, done, aborted, deref, ◌>>=◌,
}

pub record Report : Type 0 where
  pub report_id : ℕ
  pub usage_page : ℕ
  pub usage : ℕ

-- `reports` is `none` as long as nothing is allocated. `usage_page` and `usage` are the variables
-- of the parser.
pub record Hidraw : Type 0 where
  pub reports : Option (List Report)
  pub num_reports : ℕ
  pub usage_page : ℕ
  pub usage : ℕ

abbrev pub report_id_tag : ℕ
report_id_tag = 0b10000100

abbrev pub collection_tag : ℕ
collection_tag = 0b10100000

abbrev pub usage_page_tag : ℕ
usage_page_tag = 0b00000100

abbrev pub usage_tag : ℕ
usage_tag = 0b00001000

abbrev pub application : ℕ
application = 1

-- A write to `hidraw->reports[i]`, which aborts outside of what is allocated.
pub store : Hidraw → List Report → ℕ → Report → Outcome Hidraw
store hidraw reports i report =
    if ltb i (length reports)
    then done (record hidraw { reports = some (set reports i report) })
    else aborted

-- `HID_REPORT_ID`
pub handle_report_id : ℕ → Hidraw → Outcome Hidraw
unfolding store
handle_report_id content hidraw = elim hidraw.reports [
  | none ↦ done (record hidraw { num_reports = hidraw.num_reports + 1 })
  | some reports ↦ do
    stored ←
        store hidraw reports hidraw.num_reports
          (record { report_id = content; usage_page = hidraw.usage_page; usage = hidraw.usage })
    done (record stored { num_reports = hidraw.num_reports + 1 })
]

-- `HID_COLLECTION` once the reports are allocated.
pub collection_in : ℕ → Hidraw → List Report → Outcome Hidraw
unfolding store
collection_in content hidraw reports =
    if content == application
    then if hidraw.num_reports == 0
      then deref (get_elem? reports 0) >>= (λ report.
        if report.report_id == 0
        then store hidraw reports hidraw.num_reports
            (record report { usage_page = hidraw.usage_page; usage = hidraw.usage })
        else done hidraw)
      else done hidraw
    else done hidraw

-- `HID_COLLECTION`
pub handle_collection : ℕ → Hidraw → Outcome Hidraw
unfolding collection_in
handle_collection content hidraw = elim hidraw.reports [
  | none ↦ done hidraw
  | some reports ↦ collection_in content hidraw reports
]

pub handle_item : ℕ → ℕ → Hidraw → Outcome Hidraw
unfolding handle_report_id handle_collection
handle_item hid content hidraw =
    if hid == report_id_tag
    then handle_report_id content hidraw
    else if hid == collection_tag
    then handle_collection content hidraw
    else if hid == usage_page_tag
    then done (record hidraw { usage_page = content })
    else if hid == usage_tag
    then done (record hidraw { usage = content })
    else done hidraw

-- The size of the data behind the byte of an item.
unfoldable pub item_size : ℕ → ℕ
item_size value = if bit_and value 0x3 == 3 then 4 else bit_and value 0x3

-- The bytes of the data, the lowest first.
unfoldable pub content_of : List ℕ → ℕ
content_of [] = 0
content_of (byte ∷ bytes) = byte + 256 * content_of bytes

abbrev pub skip : ℕ → List ℕ → List ℕ
skip zero bytes = bytes
skip (suc n) [] = []
skip (suc n) (byte ∷ bytes) = skip n bytes

-- The loop over the bytes that are left: whether it comes to their end, and the state. `aborted`
-- also stands for an end of the fuel.
pub parse_items : ℕ → List ℕ → Hidraw → Outcome (Bool × Hidraw)
unfolding handle_item item_size content_of
parse_items fuel [] hidraw = done (true, hidraw)
parse_items zero (value ∷ rest) hidraw = aborted
parse_items (suc fuel) (value ∷ rest) hidraw =
    let size = item_size value in
    elim (ltb (length rest) size) [
      | true ↦ done (false, hidraw)
      | false ↦
          handle_item (bit_and value 0xfc) (content_of (take size rest)) hidraw
          >>= parse_items fuel (skip size rest)
    ]

pub parse_report_descriptor : Option (List ℕ) → Hidraw → Outcome (Bool × Hidraw)
unfolding parse_items
parse_report_descriptor none hidraw = done (false, record hidraw { num_reports = 0 })
parse_report_descriptor (some desc) hidraw =
    parse_items (length desc) desc (record hidraw { num_reports = 0; usage_page = 0; usage = 0 })

abbrev pub no_report : Report
no_report = record { report_id = 0; usage_page = 0; usage = 0 }

-- The part of `ratbag_open_hidraw_node` about the reports, for the first node (`idx` is 0): the
-- descriptor is parsed once to count them and, whatever that gives, once more to store them. The
-- result is the negated code that the call returns, with the reports: after an error of the first
-- pass it is `errno`, which the parser does not set, so that it is the call's first parameter.
pub open_reports : ℕ → Option (List ℕ) → Option (List ℕ) → Outcome (ℕ × Hidraw)
unfolding parse_report_descriptor
open_reports errno first second = do
  (ok, counted) ←
      parse_report_descriptor first
        (record { reports = none; num_reports = 0; usage_page = 0; usage = 0 })
  elim ok [
    | false ↦ done (errno, counted)
    | true ↦
        let room = if counted.num_reports == 0 then 1 else counted.num_reports in
        parse_report_descriptor second
          (record counted { reports = some (replicate room no_report) })
        >>= λ result. done (0, result.1)
  ]

-- The loop of `ratbag_hidraw_get_report` over `n` reports.
pub find_report : ℕ → List Report → ℕ → Outcome (Option Report)
find_report zero reports report_id = done none
find_report (suc n) [] report_id = aborted
find_report (suc n) (report ∷ reports) report_id =
    if report.report_id == report_id then done (some report) else find_report n reports report_id

pub hidraw_get_report : Hidraw → ℕ → Outcome (Option Report)
unfolding find_report
hidraw_get_report hidraw report_id = do
  reports ← deref hidraw.reports
  if report_id == 0
      then deref (get_elem? reports 0)
        >>= (λ report. done (if report.report_id == report_id then some report else none))
      else find_report hidraw.num_reports reports report_id

pub hidraw_has_report : Hidraw → ℕ → Outcome Bool
unfolding hidraw_get_report
hidraw_has_report hidraw report_id = do
  found ← hidraw_get_report hidraw report_id
  done (elim found [ none ↦ false | some report ↦ true ])

pub hidraw_get_usage_page : Hidraw → ℕ → Outcome ℕ
unfolding hidraw_get_report
hidraw_get_usage_page hidraw report_id = do
  found ← hidraw_get_report hidraw report_id
  done (elim found [ none ↦ 0 | some report ↦ report.usage_page ])

pub hidraw_get_usage : Hidraw → ℕ → Outcome ℕ
unfolding hidraw_get_report
hidraw_get_usage hidraw report_id = do
  found ← hidraw_get_report hidraw report_id
  done (elim found [ none ↦ 0 | some report ↦ report.usage ])
