-- ===== src/Hidraw/Descriptor/Passes.antt =====
-- src/libratbag-hidraw.c: the loop over a report descriptor, and the two passes of the opening.
use mathlib.Core.Path.{subst}
use mathlib.Core.List.{append_assoc, append-nil}
use libratbag.Base.{
  ℕ, zero, suc, ◌≤◌, ◌<◌, bit_and, Bool, true, false, Option, none, some, List, [], ◌∷◌, ◌++◌, map,
  ltb, ◌==◌, if◌then◌else◌, length, get_elem?, take, replicate, ◌≡◌, refl, sym, ap, ◌∙◌, ◌⊎◌, inl,
  inr, arith, done, deref, ◌>>=◌, Bool-cases, length-append, length-replicate,
}
use libratbag.Hidraw.{
  Report, Hidraw, report_id_tag, handle_item, item_size, content_of, skip, parse_items,
  parse_report_descriptor, no_report, open_reports, find_report, hidraw_get_report,
  hidraw_has_report,
}
use libratbag.Hidraw.Descriptor.{
  id_of, ids_in, ends_in, is_whole, declared_ids, item_ids, length-skip, ids_in-suc, Counts, Stores,
  Makes, handle_item-Makes, report_id-Counts, collection-Counts, report_id-Stores,
  collection-Stores, Counts-turn, Stores-turn,
}

module _ (fuel value : ℕ) (rest : List ℕ) (hidraw : Hidraw) where
  parse_items-short :
      ltb (length rest) (item_size value) ≡ true
      → parse_items (suc fuel) (value ∷ rest) hidraw ≡ done (false, hidraw)
  unfolding parse_items
  parse_items-short e = ground arith

  parse_items-next :
      (next : Hidraw)
      → ltb (length rest) (item_size value) ≡ false
      → handle_item (bit_and value 0xfc) (content_of (take (item_size value) rest)) hidraw
        ≡ done next
      → parse_items (suc fuel) (value ∷ rest) hidraw
        ≡ parse_items fuel (skip (item_size value) rest) next
  unfolding parse_items
  parse_items-next next e handled =
      handles ∙ ap (λ o. o >>= parse_items fuel (skip (item_size value) rest)) handled
    where
      handles : parse_items (suc fuel) (value ∷ rest) hidraw ≡ (
          handle_item (bit_and value 0xfc) (content_of (take (item_size value) rest)) hidraw
          >>= parse_items fuel (skip (item_size value) rest))
      handles = ground (arith, e)

-- The ids of the items that are read, and of those behind.
module _ (fuel value : ℕ) (rest ids : List ℕ) where
  gather_ids :
      ltb (length rest) (item_size value) ≡ false
      → (ids ++ item_ids (bit_and value 0xfc) (content_of (take (item_size value) rest)))
          ++ ids_in fuel (skip (item_size value) rest)
        ≡ ids ++ ids_in (suc fuel) (value ∷ rest)
  gather_ids e =
      append_assoc ids (item_ids (bit_and value 0xfc) (content_of (take (item_size value) rest)))
        (ids_in fuel (skip (item_size value) rest))
      ∙ ap (λ l. ids ++ l) (ids_in-suc fuel value rest e)

  no_more_ids :
      ltb (length rest) (item_size value) ≡ true → ids ≡ ids ++ ids_in (suc fuel) (value ∷ rest)
  no_more_ids e = rw (e, append-nil ids)

-- The loop, from what an item does, for a property of the state and the ids so far.
module _ (P : Hidraw → List ℕ → Type 0) (total : ℕ)
    (item : (hid content : ℕ) (hidraw : Hidraw) (ids : List ℕ)
      → length (ids ++ item_ids hid content) ≤ total
      → P hidraw ids
      → Makes (handle_item hid content hidraw) (λ h. P h (ids ++ item_ids hid content))) where
  parse_items-Makes :
      (fuel : ℕ) (bytes : List ℕ) (hidraw : Hidraw) (ids : List ℕ)
      → length bytes ≤ fuel
      → length (ids ++ ids_in fuel bytes) ≤ total
      → P hidraw ids
      → (hidraw' : Hidraw) × (parse_items fuel bytes hidraw ≡ done (ends_in fuel bytes, hidraw'))
        × P hidraw' (ids ++ ids_in fuel bytes)
  unfolding parse_items
  parse_items-Makes fuel [] hidraw ids enough room p = (hidraw, refl, rw (append-nil ids) p)
  parse_items-Makes zero (value ∷ rest) hidraw ids enough room p = absurd (omega arith)
  parse_items-Makes (suc fuel) (value ∷ rest) hidraw ids enough room p =
      elim (Bool-cases (ltb (length rest) (item_size value))) [
        | inl e ↦ (
          hidraw,
          parse_items-short fuel value rest hidraw e
              ∙ ap (λ b. done (b, hidraw)) (sym (ends_short e)),
          subst (P hidraw) (no_more_ids fuel value rest ids e) p,
        )
        | inr e ↦
            let content = content_of (take (item_size value) rest) in
            let new = item_ids (bit_and value 0xfc) content in
            let behind = skip (item_size value) rest in
            let gathered = gather_ids fuel value rest ids e in
            let fits : length ((ids ++ new) ++ ids_in fuel behind) ≤ total =
              subst (λ l. length l ≤ total) (sym gathered) room in
            let (next, handled, p') =
              item (bit_and value 0xfc) content hidraw ids
                (omega (arith, fits, length-append (ids ++ new) (ids_in fuel behind))) p in
            let (final, parsed, q) =
              parse_items-Makes fuel behind next (ids ++ new)
                (omega (arith, length-skip (item_size value) rest)) fits p' in
            (
              final,
              parse_items-next fuel value rest hidraw next e handled
                  ∙ parsed
                  ∙ ap (λ b. done (b, final)) (sym (ends_next e)),
              subst (P final) gathered q,
            )
      ]
    where
      ends_short :
          ltb (length rest) (item_size value) ≡ true → ends_in (suc fuel) (value ∷ rest) ≡ false
      ends_short e = rw e

      ends_next :
          ltb (length rest) (item_size value) ≡ false
          → ends_in (suc fuel) (value ∷ rest) ≡ ends_in fuel (skip (item_size value) rest)
      ends_next e = rw e

item-Counts :
    (hid content : ℕ) (hidraw : Hidraw) (ids : List ℕ)
    → Counts hidraw ids
    → Makes (handle_item hid content hidraw) (λ h. Counts h (ids ++ item_ids hid content))
item-Counts hid content hidraw ids c =
    handle_item-Makes Counts Counts-turn content hidraw ids hid c
      (inr (report_id-Counts content hidraw ids c)) (collection-Counts content hidraw ids c)

item-Stores :
    (total : ℕ)
    → 0 < total
    → (hid content : ℕ) (hidraw : Hidraw) (ids : List ℕ)
    → length (ids ++ item_ids hid content) ≤ total
    → Stores total hidraw ids
    → Makes (handle_item hid content hidraw) (λ h. Stores total h (ids ++ item_ids hid content))
item-Stores total positive hid content hidraw ids room s =
    handle_item-Makes (Stores total) (Stores-turn total) content hidraw ids hid s
      (elim (Bool-cases (hid == report_id_tag)) [
        | inr e ↦ inl e
        | inl e ↦ inr (
            report_id-Stores total content hidraw ids
              (omega (arith, one_more e, length-append ids (content ∷ []))) s)
      ])
      (collection-Stores total content hidraw ids positive s)
  where
    one_more : (hid == report_id_tag) ≡ true → length (ids ++ content ∷ []) ≤ total
    one_more e =
        subst (λ (b : Bool). length (ids ++ (if b then content ∷ [] else [])) ≤ total) e room

-- Whether an id is among those that are declared.
abbrev pub is_declared : List ℕ → ℕ → Bool
is_declared [] id = false
is_declared (x ∷ ids) id = if x == id then true else is_declared ids id

abbrev is_some : Option Report → Bool
is_some none = false
is_some (some report) = true

find_report-stored :
    (ids : List ℕ) (reports : List Report) (id : ℕ)
    → map id_of (take (length ids) reports) ≡ ids
    → (found : Option Report) × (find_report (length ids) reports id ≡ done found)
      × (is_some found ≡ is_declared ids id)
unfolding find_report
find_report-stored [] reports id stored = (none, refl, refl)
find_report-stored (x ∷ ids) [] id stored = cc
find_report-stored (x ∷ ids) (report ∷ reports) id stored =
    let first : report.report_id ≡ x = cc in
    let behind : map id_of (take (length ids) reports) ≡ ids = cc in
    elim (Bool-cases (x == id)) [
      | inl e ↦ (some report, rw (first, e), rw e)
      | inr e ↦
          let (found, finds, same) = find_report-stored ids reports id behind in
          (found, rw (first, e) finds, rw e same)
    ]

get_report-some :
    (hidraw : Hidraw) (reports : List Report) (id : ℕ)
    → 0 < id
    → hidraw.reports ≡ some reports
    → hidraw_get_report hidraw id ≡ find_report hidraw.num_reports reports id
unfolding hidraw_get_report
get_report-some hidraw reports id positive e =
    ap
      (λ (r : Option (List Report)). deref r >>= (λ l.
        if id == 0
        then deref (get_elem? l 0)
          >>= (λ report. done (if report.report_id == id then some report else none))
        else find_report hidraw.num_reports l id))
      e
    ∙ ground (arith, positive)

has_report-Stores :
    (total : ℕ) (hidraw : Hidraw) (ids : List ℕ) (id : ℕ)
    → 0 < id
    → Stores total hidraw ids
    → hidraw_has_report hidraw id ≡ done (is_declared ids id)
unfolding hidraw_has_report
has_report-Stores total hidraw ids id positive s =
    let (found, finds, same) = find_report-stored ids s.reports id s.stored in
    ap (λ o. o >>= (λ f. done (is_some f)))
      (get_report-some hidraw s.reports id positive s.allocated
        ∙ ap (λ n. find_report n s.reports id) s.counted
        ∙ finds)
    ∙ ap done same

-- The room for the reports that are counted.
room_for : ℕ → ℕ
room_for n = if n == 0 then 1 else n

room_for-enough : (n : ℕ) → (0 < room_for n) × (n ≤ room_for n)
unfolding room_for
room_for-enough n = (ground arith, ground arith)

first_pass :
    (desc : List ℕ)
    → (counted : Hidraw) × (parse_report_descriptor
          (some desc)
          (record { reports = none; num_reports = 0; usage_page = 0; usage = 0 })
        ≡ done (is_whole desc, counted))
      × (counted.num_reports ≡ length (declared_ids desc))
      × (counted.reports ≡ none)
unfolding parse_report_descriptor
first_pass desc =
    let (counted, parsed, c) =
      parse_items-Makes Counts (length (declared_ids desc))
        (λ hid content hidraw ids room c. item-Counts hid content hidraw ids c) (length desc) desc
        (record { reports = none; num_reports = 0; usage_page = 0; usage = 0 }) [] (omega arith)
        (omega arith) (record { unallocated = refl; counted = refl }) in
    (counted, parsed, c.counted, c.unallocated)

second_pass :
    (desc : List ℕ) (counted : Hidraw) (total : ℕ)
    → 0 < total
    → length (declared_ids desc) ≤ total
    → (stored : Hidraw) × (parse_report_descriptor
          (some desc)
          (record counted { reports = some (replicate total no_report) })
        ≡ done (is_whole desc, stored))
      × Stores total stored (declared_ids desc)
unfolding parse_report_descriptor
second_pass desc counted total positive enough =
    parse_items-Makes (Stores total) total (item-Stores total positive) (length desc) desc
      (record {
        reports = some (replicate total no_report);
        num_reports = 0;
        usage_page = 0;
        usage = 0;
      })
      [] (omega arith) enough
      (record {
        reports = replicate total no_report;
        allocated = refl;
        room = length-replicate total no_report;
        counted = refl;
        stored = refl;
      })

-- For a descriptor whose items go past its end, the call returns `-errno`, whatever `errno` is then, 0
-- included, and allocates no reports. For any other it returns 0, and exactly the reports that it
-- declares are there afterwards: the two passes write only to reports that are allocated, and for
-- every id but 0 the device has a report with this id if and only if the descriptor declares one.
pub open_reports-has_report :
    (errno : ℕ) (desc : List ℕ) (id : ℕ)
    → 0 < id
    → ((is_whole desc ≡ false)
        × ((hidraw : Hidraw) × (open_reports errno (some desc) (some desc) ≡ done (errno, hidraw))
            × (hidraw.reports ≡ none)))
      ⊎ ((is_whole desc ≡ true)
          × ((hidraw : Hidraw) × (open_reports errno (some desc) (some desc) ≡ done (0, hidraw))
              × (hidraw_has_report hidraw id ≡ done (is_declared (declared_ids desc) id))))
unfolding open_reports room_for
open_reports-has_report errno desc id positive =
    let (counted, first, n, unallocated) = first_pass desc in
    let (big, enough) = room_for-enough counted.num_reports in
    let (stored, second, s) =
      second_pass desc counted (room_for counted.num_reports) big (omega (arith, n, enough)) in
    elim (Bool-cases (is_whole desc)) [
      | inr e ↦ inl (e, (counted, rw (first, e), unallocated))
      | inl e ↦ inr (
        e,
        (
          stored,
          rw (first, e, second),
          has_report-Stores (room_for counted.num_reports) stored (declared_ids desc) id positive s,
        ),
      )
    ]
