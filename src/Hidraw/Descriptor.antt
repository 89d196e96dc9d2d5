-- ===== src/Hidraw/Descriptor.antt =====
-- src/libratbag-hidraw.c: the two passes over a report descriptor agree, so that the reports that
-- the first one counts are those that the second one stores.
pub mod Passes
use mathlib.Core.Path.{subst}
use mathlib.Core.List.{append_assoc, append-nil}
use libratbag.Base.{
  ℕ, zero, suc, ◌+◌, ◌≤◌, ◌<◌, bit_and, Bool, true, false, not, ◌||◌, Option, none, some, List, [],
  ◌∷◌, ◌++◌, map, ltb, ◌==◌, if◌then◌else◌, length, get_elem?, set, take, replicate, ◌≡◌, refl, sym,
  ap, ◌∙◌, ◌⊎◌, inl, inr, arith, Outcome, done, aborted, deref, ◌>>=◌, Bool-cases, length-append,
  length-set, length-replicate,
}
use libratbag.Hidraw.{
  Report, Hidraw, report_id_tag, collection_tag, usage_page_tag, usage_tag, store, handle_report_id,
  collection_in, handle_collection, handle_item, item_size, content_of, skip, parse_items,
  parse_report_descriptor, no_report, open_reports, find_report, hidraw_get_report,
  hidraw_has_report, application,
}

abbrev pub id_of : Report → ℕ
id_of report = report.report_id

-- The ids that a descriptor declares, up to its end or to an item that goes past it.
abbrev pub ids_in : ℕ → List ℕ → List ℕ
ids_in fuel [] = []
ids_in zero (value ∷ rest) = []
ids_in (suc fuel) (value ∷ rest) =
    let size = item_size value in
    let behind = ids_in fuel (skip size rest) in
    if ltb (length rest) size
    then []
    else if bit_and value 0xfc == report_id_tag
    then content_of (take size rest) ∷ behind
    else behind

-- Whether the items come to the end of the bytes, so that none goes past it.
abbrev pub ends_in : ℕ → List ℕ → Bool
ends_in fuel [] = true
ends_in zero (value ∷ rest) = false
ends_in (suc fuel) (value ∷ rest) =
    let size = item_size value in
    let behind = ends_in fuel (skip size rest) in if ltb (length rest) size then false else behind

abbrev pub is_whole : List ℕ → Bool
is_whole desc = ends_in (length desc) desc

abbrev pub declared_ids : List ℕ → List ℕ
declared_ids desc = ids_in (length desc) desc

-- The ids of one item.
abbrev pub item_ids : ℕ → ℕ → List ℕ
item_ids hid content = if hid == report_id_tag then content ∷ [] else []

pub length-skip : (n : ℕ) (l : List ℕ) → length (skip n l) ≤ length l
length-skip zero l = omega arith
length-skip (suc n) [] = omega arith
length-skip (suc n) (x ∷ l) = omega (arith, length-skip n l)

take-set :
    (l : List Report) (n : ℕ) (x : Report)
    → n < length l
    → map id_of (take (suc n) (set l n x)) ≡ map id_of (take n l) ++ id_of x ∷ []
take-set [] n x h = absurd (omega arith)
take-set (y ∷ l) zero x h = refl
take-set (y ∷ l) (suc n) x h = ap (◌∷◌ (id_of y)) (take-set l n x (omega arith))

-- The first pass has counted these ids.
pub record Counts (hidraw : Hidraw) (ids : List ℕ) : Type 0 where
  pub unallocated : hidraw.reports ≡ none
  pub counted : hidraw.num_reports ≡ length ids

-- The second pass has stored these ids, in memory for `total` reports.
pub record Stores (total : ℕ) (hidraw : Hidraw) (ids : List ℕ) : Type 0 where
  pub reports : List Report
  pub allocated : hidraw.reports ≡ some reports
  pub room : length reports ≡ total
  pub counted : hidraw.num_reports ≡ length ids
  pub stored : map id_of (take (length ids) reports) ≡ ids

-- A call that returns, with a state that is as wanted.
abbrev pub Makes : Outcome Hidraw → (Hidraw → Type 0) → Type 0
Makes call P = (hidraw' : Hidraw) × (call ≡ done hidraw') × P hidraw'

-- An item, from what its handler does.
module _ (P : Hidraw → List ℕ → Type 0)
    (turn : (hidraw : Hidraw) (ids : List ℕ) (page u : ℕ)
      → P hidraw ids
      → P (record hidraw { usage_page = page; usage = u }) ids)
    (content : ℕ) (hidraw : Hidraw) (ids : List ℕ) where
  pub handle_item-Makes :
      (hid : ℕ)
      → P hidraw ids
      → ((hid == report_id_tag) ≡ false)
        ⊎ Makes (handle_report_id content hidraw) (λ h. P h (ids ++ content ∷ []))
      → Makes (handle_collection content hidraw) (λ h. P h ids)
      → Makes (handle_item hid content hidraw) (λ h. P h (ids ++ item_ids hid content))
  unfolding handle_item
  handle_item-Makes hid p new collection = elim (Bool-cases (hid == report_id_tag)) [
    | inl e ↦ elim new [ inl ne ↦ absurd (ground arith) | inr made ↦ rw e made ]
    | inr e ↦
        rw (e, append-nil ids)
          (elim (Bool-cases (hid == collection_tag)) [
            | inl f ↦ rw f collection
            | inr f ↦ rw f (elim (Bool-cases (hid == usage_page_tag)) [
              | inl g ↦ rw g (_, refl, turn hidraw ids content hidraw.usage p)
              | inr g ↦ rw g (elim (Bool-cases (hid == usage_tag)) [
                | inl k ↦ rw k (_, refl, turn hidraw ids hidraw.usage_page content p)
                | inr k ↦ rw k (_, refl, p)
              ])
            ])
          ])
  ]

pub report_id-Counts :
    (content : ℕ) (hidraw : Hidraw) (ids : List ℕ)
    → Counts hidraw ids
    → Makes (handle_report_id content hidraw) (λ h. Counts h (ids ++ content ∷ []))
unfolding handle_report_id
report_id-Counts content hidraw ids c = (
  record hidraw { num_reports = hidraw.num_reports + 1 },
  rw c.unallocated,
  record {
    unallocated = c.unallocated;
    counted = omega (arith, c.counted, length-append ids (content ∷ []));
  },
)

pub collection-Counts :
    (content : ℕ) (hidraw : Hidraw) (ids : List ℕ)
    → Counts hidraw ids
    → Makes (handle_collection content hidraw) (λ h. Counts h ids)
unfolding handle_collection
collection-Counts content hidraw ids c = (hidraw, rw c.unallocated, c)

pub report_id-Stores :
    (total content : ℕ) (hidraw : Hidraw) (ids : List ℕ)
    → length ids < total
    → Stores total hidraw ids
    → Makes (handle_report_id content hidraw) (λ h. Stores total h (ids ++ content ∷ []))
unfolding handle_report_id store
report_id-Stores total content hidraw ids small s = (
  record hidraw {
    reports = some (set s.reports (length ids) report);
    num_reports = hidraw.num_reports + 1;
  },
  rw (s.allocated, s.counted) (ground (arith, s.room)),
  record {
    reports = set s.reports (length ids) report;
    allocated = refl;
    room = length-set s.reports (length ids) report ∙ s.room;
    counted = omega (arith, s.counted, length-append ids (content ∷ []));
    stored = rw (length-append ids (content ∷ [])) (
        ap (λ (n : ℕ). map id_of (take n (set s.reports (length ids) report))) more
        ∙ take-set s.reports (length ids) report (omega (arith, s.room))
        ∙ ap (λ l. l ++ content ∷ []) s.stored);
  },
)
  where
    report : Report
    report = record { report_id = content; usage_page = hidraw.usage_page; usage = hidraw.usage }

    more : length ids + 1 ≡ suc (length ids)
    more = omega arith

no_ids : (ids : List ℕ) → length ids ≡ 0 → ids ≡ []
no_ids [] h = refl
no_ids (x ∷ ids) h = absurd (omega arith)

first_there : (l : List Report) → 0 < length l → (x : Report) × (get_elem? l 0 ≡ some x)
first_there [] h = absurd (omega arith)
first_there (x ∷ l) h = (x, refl)

handle_collection-some :
    (content : ℕ) (hidraw : Hidraw) (reports : List Report)
    → hidraw.reports ≡ some reports
    → handle_collection content hidraw ≡ collection_in content hidraw reports
unfolding handle_collection
handle_collection-some content hidraw reports e =
    ap
      (λ (r : Option (List Report)). elim r [
        | none ↦ done hidraw
        | some l ↦ collection_in content hidraw l
      ])
      e

-- The first report, given its usage by the collection.
with_usage : Hidraw → List Report → Report → Hidraw
with_usage hidraw reports report = record hidraw {
  reports =
      some (set reports 0 (record report { usage_page = hidraw.usage_page; usage = hidraw.usage }));
}

store-first :
    (hidraw : Hidraw) (reports : List Report) (i : ℕ) (report : Report)
    → i ≡ 0
    → 0 < length reports
    → store hidraw reports i report ≡ done (record hidraw { reports = some (set reports 0 report) })
unfolding store
store-first hidraw [] i report first h = absurd (omega arith)
store-first hidraw (x ∷ reports) zero report first h = ground arith
store-first hidraw (x ∷ reports) (suc i) report first h = absurd (omega arith)

collection_in-cases :
    (content : ℕ) (hidraw : Hidraw) (reports : List Report)
    → 0 < length reports
    → (collection_in content hidraw reports ≡ done hidraw)
      ⊎ ((hidraw.num_reports ≡ 0)
          × ((report : Report) × (collection_in content hidraw reports
                ≡ done (with_usage hidraw reports report))))
unfolding collection_in with_usage
collection_in-cases content hidraw [] h = absurd (omega arith)
collection_in-cases content hidraw (report ∷ reports) h =
    elim (Bool-cases (content == application)) [
      | inr e ↦ inl (rw e)
      | inl e ↦ elim (Bool-cases (hidraw.num_reports == 0)) [
        | inr f ↦ inl (rw (e, f))
        | inl f ↦ elim (Bool-cases (report.report_id == 0)) [
          | inr g ↦ inl (rw (e, f, g))
          | inl g ↦
              let first : hidraw.num_reports ≡ 0 = ground arith in
              inr
                (first, (report, rw (e, f, g) (store-first hidraw (report ∷ reports) _ _ first h)))
        ]
      ]
    ]

pub collection-Stores :
    (total content : ℕ) (hidraw : Hidraw) (ids : List ℕ)
    → 0 < total
    → Stores total hidraw ids
    → Makes (handle_collection content hidraw) (λ h. Stores total h ids)
unfolding with_usage
collection-Stores total content hidraw ids positive s =
    elim (collection_in-cases content hidraw s.reports (omega (arith, positive, s.room))) [
      | inl same ↦ (hidraw, found ∙ same, s)
      | inr (first, (report, changed)) ↦ (
        with_usage hidraw s.reports report,
        found ∙ changed,
        record {
          reports =
              set s.reports 0
                (record report { usage_page = hidraw.usage_page; usage = hidraw.usage });
          allocated = refl;
          room = length-set s.reports 0 _ ∙ s.room;
          counted = s.counted;
          stored = rw (no_ids ids (omega (arith, s.counted, first))) refl;
        },
      )
    ]
  where
    found : handle_collection content hidraw ≡ collection_in content hidraw s.reports
    found = handle_collection-some content hidraw s.reports s.allocated

pub Counts-turn :
    (hidraw : Hidraw) (ids : List ℕ) (page u : ℕ)
    → Counts hidraw ids
    → Counts (record hidraw { usage_page = page; usage = u }) ids
Counts-turn hidraw ids page u c = record { unallocated = c.unallocated; counted = c.counted }

pub Stores-turn :
    (total : ℕ) (hidraw : Hidraw) (ids : List ℕ) (page u : ℕ)
    → Stores total hidraw ids
    → Stores total (record hidraw { usage_page = page; usage = u }) ids
Stores-turn total hidraw ids page u s = record {
  reports = s.reports;
  allocated = s.allocated;
  room = s.room;
  counted = s.counted;
  stored = s.stored;
}

pub ids_in-suc :
    (fuel value : ℕ) (rest : List ℕ)
    → ltb (length rest) (item_size value) ≡ false
    → item_ids (bit_and value 0xfc) (content_of (take (item_size value) rest))
        ++ ids_in fuel (skip (item_size value) rest)
      ≡ ids_in (suc fuel) (value ∷ rest)
ids_in-suc fuel value rest e = elim (Bool-cases (bit_and value 0xfc == report_id_tag)) [
  | inl f ↦ rw (e, f)
  | inr f ↦ rw (e, f)
]
