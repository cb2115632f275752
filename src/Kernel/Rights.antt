-- ===== src/Kernel/Rights.antt =====
-- Where the kernel's sections stand (arch/x86_64/include/mem/layout.h), and what `kernel_remap`
-- (kernel.c) is to make of each page.
use mimik.Base.{
  ℕ, ◌+◌, ◌*◌, ◌%◌, ◌^◌, ◌<◌, ◌≤◌, ◌≡◌, Bool, true, false, ◌&&◌, ◌||◌, ltb, leb, if◌then◌else◌,
  arith, ◌∙◌, ap, Option, none, some,
}
use mimik.Vm.State.{Pte, pte_paddr, set_pte, flag_writable, flag_executable}
use mimik.Kernel.{Sections}

-- The address of a page of the 2 MB that start at `base`.
abbrev pub page_at : ℕ → ℕ → ℕ
page_at base p = base + p * 4096

-- An address in page `p - 1`, or at its end.
abbrev pub Ends : (base p end : ℕ) → Type 0
Ends base p end = (page_at base p < end + 4096) × (end ≤ page_at base p)

-- The sections start at pages of one stretch of 2 MB of the kernel's addresses, in order, each ends
-- somewhere in the page in front of its last number, and none is empty.
pub record IsLaidOut (l : Sections)
    (base entry text text_end rodata rodata_end data_page data_end : ℕ) : Type 0 where
  pub aligned : base % 2 ^ 21 ≡ 0
  pub kernel : 18446603336221196288 ≤ base
  pub top : base + 2 ^ 21 ≤ 2 ^ 64
  pub entry_text : entry < text
  pub text_text : text < text_end
  pub text_rodata : text_end ≤ rodata
  pub rodata_rodata : rodata < rodata_end
  pub rodata_data : rodata_end ≤ data_page
  pub data_data : data_page < data_end
  pub inside : data_end ≤ 512
  pub vaddr_start_at : l.vaddr_start ≡ page_at base entry
  pub text_start_at : l.text_start ≡ page_at base text
  pub text_end_at : Ends base text_end l.text_end
  pub rodata_start_at : l.rodata_start ≡ page_at base rodata
  pub rodata_end_at : Ends base rodata_end l.rodata_end
  pub data_start_at : l.data_start ≡ page_at base data_page
  pub data_end_at : Ends base data_end l.data_end

abbrev pub between : ℕ → ℕ → ℕ → Bool
between a b j = leb a j && ltb j b

-- The flags that a page of the stretch gets, if it is one of a section.
abbrev pub flags_at : (entry text text_end rodata rodata_end data_page data_end j : ℕ) → Option ℕ
flags_at entry text text_end rodata rodata_end data_page data_end j =
    if between entry text j || between data_page data_end j
    then some flag_writable
    else if between text text_end j
    then some flag_executable
    else if between rodata rodata_end j
    then some 0
    else none

-- An entry behind `kernel_remap`, by its page: the same page, writable in the entry and data
-- sections, executable in the text, and neither in the read-only data.
abbrev pub remapped : (entry text text_end rodata rodata_end data_page data_end j : ℕ) → Pte → Pte
remapped entry text text_end rodata rodata_end data_page data_end j e =
    if between entry text j || between data_page data_end j
    then set_pte (pte_paddr e) flag_writable
    else if between text text_end j
    then set_pte (pte_paddr e) flag_executable
    else if between rodata rodata_end j
    then set_pte (pte_paddr e) 0
    else e

-- Two stretches of pages that do not overlap.
apart : (a b c d j : ℕ) → b ≤ c → (between a b j && between c d j) ≡ false
apart a b c d j le = ground arith

-- One of four changes is made, or none.
picked :
    (b1 b2 b3 b4 : Bool) (e0 e1 e2 e3 e4 : Pte)
    → (b1 && b2) ≡ false
    → (b1 && b3) ≡ false
    → (b2 && b3) ≡ false
    → (b1 && b4) ≡ false
    → (b2 && b4) ≡ false
    → (b3 && b4) ≡ false
    → e1 ≡ (if b1 then set_pte (pte_paddr e0) 4 else e0)
    → e2 ≡ (if b2 then set_pte (pte_paddr e1) 8 else e1)
    → e3 ≡ (if b3 then set_pte (pte_paddr e2) 0 else e2)
    → e4 ≡ (if b4 then set_pte (pte_paddr e3) 4 else e3)
    → pte_paddr e1 ≡ pte_paddr e0
    → pte_paddr e2 ≡ pte_paddr e0
    → pte_paddr e3 ≡ pte_paddr e0
    → e4 ≡ (
        if b1 || b4
        then set_pte (pte_paddr e0) 4
        else if b2
        then set_pte (pte_paddr e0) 8
        else if b3
        then set_pte (pte_paddr e0) 0
        else e0)
picked true true b3 b4 e0 e1 e2 e3 e4 d12 d13 d23 d14 d24 d34 q1 q2 q3 q4 p1 p2 p3 =
    absurd (ground arith)
picked true false true b4 e0 e1 e2 e3 e4 d12 d13 d23 d14 d24 d34 q1 q2 q3 q4 p1 p2 p3 =
    absurd (ground arith)
picked true false false true e0 e1 e2 e3 e4 d12 d13 d23 d14 d24 d34 q1 q2 q3 q4 p1 p2 p3 =
    absurd (ground arith)
picked true false false false e0 e1 e2 e3 e4 d12 d13 d23 d14 d24 d34 q1 q2 q3 q4 p1 p2 p3 =
    q4 ∙ q3 ∙ q2 ∙ q1
picked false true true b4 e0 e1 e2 e3 e4 d12 d13 d23 d14 d24 d34 q1 q2 q3 q4 p1 p2 p3 =
    absurd (ground arith)
picked false true false true e0 e1 e2 e3 e4 d12 d13 d23 d14 d24 d34 q1 q2 q3 q4 p1 p2 p3 =
    absurd (ground arith)
picked false true false false e0 e1 e2 e3 e4 d12 d13 d23 d14 d24 d34 q1 q2 q3 q4 p1 p2 p3 =
    q4 ∙ q3 ∙ q2 ∙ ap (λ a. set_pte a 8) p1
picked false false true true e0 e1 e2 e3 e4 d12 d13 d23 d14 d24 d34 q1 q2 q3 q4 p1 p2 p3 =
    absurd (ground arith)
picked false false true false e0 e1 e2 e3 e4 d12 d13 d23 d14 d24 d34 q1 q2 q3 q4 p1 p2 p3 =
    q4 ∙ q3 ∙ ap (λ a. set_pte a 0) p2
picked false false false true e0 e1 e2 e3 e4 d12 d13 d23 d14 d24 d34 q1 q2 q3 q4 p1 p2 p3 =
    q4 ∙ ap (λ a. set_pte a 4) p3
picked false false false false e0 e1 e2 e3 e4 d12 d13 d23 d14 d24 d34 q1 q2 q3 q4 p1 p2 p3 =
    q4 ∙ q3 ∙ q2 ∙ q1

-- The four changes of `kernel_remap` to one entry.
pub remapped-entries :
    {l : Sections} {base entry text text_end rodata rodata_end data_page data_end : ℕ}
    (o : IsLaidOut l base entry text text_end rodata rodata_end data_page data_end) (j : ℕ)
    (e0 e1 e2 e3 e4 : Pte)
    → e1 ≡ (if between entry text j then set_pte (pte_paddr e0) 4 else e0)
    → e2 ≡ (if between text text_end j then set_pte (pte_paddr e1) 8 else e1)
    → e3 ≡ (if between rodata rodata_end j then set_pte (pte_paddr e2) 0 else e2)
    → e4 ≡ (if between data_page data_end j then set_pte (pte_paddr e3) 4 else e3)
    → pte_paddr e1 ≡ pte_paddr e0
    → pte_paddr e2 ≡ pte_paddr e0
    → pte_paddr e3 ≡ pte_paddr e0
    → e4 ≡ remapped entry text text_end rodata rodata_end data_page data_end j e0
remapped-entries {entry = entry} {text = text} {text_end = text_end} {rodata = rodata}
      {rodata_end = rodata_end} {data_page = data_page} {data_end = data_end} o j e0 e1 e2 e3 e4 q1
      q2 q3 q4 p1 p2 p3 =
    let text_late : text ≤ rodata = omega (arith, o.text_text, o.text_rodata) in
    let rodata_late : rodata ≤ data_page = omega (arith, o.rodata_rodata, o.rodata_data) in
    picked (between entry text j) (between text text_end j) (between rodata rodata_end j)
      (between data_page data_end j) e0 e1 e2 e3 e4 (apart entry text text text_end j (omega arith))
      (apart entry text rodata rodata_end j text_late)
      (apart text text_end rodata rodata_end j o.text_rodata)
      (apart entry text data_page data_end j (omega arith))
      (apart text text_end data_page data_end j (omega (arith, o.text_rodata)))
      (apart rodata rodata_end data_page data_end j o.rodata_data) q1 q2 q3 q4 p1 p2 p3

-- The entry of a page of a section.
pub remapped-flags_at :
    (entry text text_end rodata rodata_end data_page data_end j flags : ℕ) (e : Pte)
    → flags_at entry text text_end rodata rodata_end data_page data_end j ≡ some flags
    → remapped entry text text_end rodata rodata_end data_page data_end j e
      ≡ set_pte (pte_paddr e) flags
remapped-flags_at entry text text_end rodata rodata_end data_page data_end j flags e at =
    by_test (between entry text j || between data_page data_end j) (between text text_end j)
      (between rodata rodata_end j) at
  where
    by_test :
        (b1 b2 b3 : Bool)
        → (if b1
            then some flag_writable
            else if b2
            then some flag_executable
            else if b3
            then some 0
            else none)
          ≡ some flags
        → (if b1
            then set_pte (pte_paddr e) flag_writable
            else if b2
            then set_pte (pte_paddr e) flag_executable
            else if b3
            then set_pte (pte_paddr e) 0
            else e)
          ≡ set_pte (pte_paddr e) flags
    by_test true b2 b3 h = ap (set_pte (pte_paddr e)) (ground (arith, h))
    by_test false true b3 h = ap (set_pte (pte_paddr e)) (ground (arith, h))
    by_test false false true h = ap (set_pte (pte_paddr e)) (ground (arith, h))
    by_test false false false h = absurd (ground (arith, h))

-- A page of a section lies in the stretch.
pub in_stretch :
    {l : Sections} {base entry text text_end rodata rodata_end data_page data_end : ℕ}
    (o : IsLaidOut l base entry text text_end rodata rodata_end data_page data_end) (j flags : ℕ)
    → flags_at entry text text_end rodata rodata_end data_page data_end j ≡ some flags
    → j < 512
in_stretch o j flags at =
    ground
      (arith, o.text_text, o.text_rodata, o.rodata_rodata, o.rodata_data, o.data_data, o.inside)
