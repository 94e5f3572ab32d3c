-- ===== src/Examples/HeapRuns.antt =====
-- lib/heap_domain.c on a machine with one heap page, mapped at 0x10000000.
use raxzus_heap_research.Heap.Domain.{Domain, null, heap_domain_alloc}
use raxzus_heap_research.Heap.Large.{large_virt_base, LargeDomain}
use raxzus_heap_research.Heap.Route.{
  heap_64, class_base, owner_of_size, Kernel, get_domain, kfree_heap,
}
use raxzus_heap_research.Heap.Chain.{nil, cons}
use raxzus_heap_research.Heap.Lifo.{HasFree, free_free, double_free_lem}
use raxzus_heap_research.Heap.RoundTrip.{free_then_alloc, free_then_alloc_lem, kfree_heap_nobody}
use raxzus_heap_research.Machine.Walk.{translate-Walk}
use raxzus_heap_research.Base.{
  ◌==◌, if◌then◌else◌, done, ℕ, ◌+◌, ◌%◌, ◌^◌, ◌≤◌, ◌<◌, ◌≡◌, refl, sym, ap, ◌∙◌, some, List, [],
  ◌∷◌, arith,
}
use raxzus_heap_research.Machine.{Layout, Machine, translate, resolve}
use raxzus_heap_research.Machine.Access.{kernel_base, word_at, peek, IsApart, resolve-user}

abbrev pub layout : Layout
layout = record {
  heap_start = 0xC0200000;
  kernel_page_dir = 0xC0200000;
  kernel_page_table = 0xC0206000;
  kernel_page_tables_base = 0xC0400000;
}

-- The directory at 0x200000 has the table at 0x201000, and that the frame at 0x300000, in which
-- block 1 links to block 2.
abbrev pub one_page : ℕ → ℕ
one_page a =
    if a == 0x200100
    then 0x201003
    else if a == 0x201000
    then 0x300003
    else if a == 0x300040
    then 0x10000080
    else 0

-- Where an address below the kernel leads.
resolve_one :
    (v pa : ℕ)
    → v < kernel_base
    → resolve layout one_page v ≡ some pa
    → (0x10000000 ≤ v) × (v < 0x10001000) × (pa ≡ 0x300000 + v % 4096)
resolve_one v pa user e =
    let w = translate-Walk one_page 0x200000 v pa (sym (resolve-user layout one_page v user) ∙ e) in
    (
      ground (arith, w.has_table),
      ground (arith, w.has_table, w.has_page),
      ground (arith, w.has_table, w.has_page, w.leads),
    )

pub one_page-IsApart : IsApart layout one_page
one_page-IsApart = record {
  off_directory =
      λ v w pa p p' e same. let (lo, hi, at_page) = resolve_one v pa p e in absurd (omega arith);
  off_tables = λ v w pa p p' e pr same.
      let (lo, hi, at_page) = resolve_one v pa p e in absurd (ground arith);
  injective = λ v w pa p p' e e'.
      let (lo, hi, at_page) = resolve_one v pa p e in
      let (lo', hi', at_page') = resolve_one w pa p' e' in omega arith;
}

abbrev pub machine : Machine
machine = record {
  frames = record { bitmap = λ i. 0xFFFFFFFF; used_frames = 2 ^ 20 };
  ram = one_page;
}

-- A domain with one page behind it, and one with none yet.
abbrev domain_64 : ℕ → Domain
domain_64 head = record {
  page_directory = 0xC0202000;
  block_size = 64;
  blocks_per_page = 64;
  next_free_block = head;
  next_virt_addr = 0x10001000;
}

abbrev pub blocks_1_2 : List ℕ
blocks_1_2 = 0x10000040 ∷ 0x10000080 ∷ []

abbrev large_domain_0 : LargeDomain
large_domain_0 = record {
  page_directory = 0xC0203000;
  next_virt_addr = large_virt_base;
  next_free_virt = null;
}

abbrev pub kernel : Kernel
kernel = record {
  machine = machine;
  heap_64 = domain_64 0x10000040;
  heap_128 = domain_64 null;
  heap_256 = domain_64 null;
  heap_512 = domain_64 null;
  heap_1k = domain_64 null;
  heap_2k = domain_64 null;
  heap_4k = domain_64 null;
  large_domain = large_domain_0;
}

peek_one :
    (v word : ℕ)
    → v < kernel_base
    → word_at one_page (translate one_page 0x200000 v) ≡ some word
    → peek layout one_page v ≡ some word
unfolding peek
peek_one v word user e = ap (word_at one_page) (resolve-user layout one_page v user) ∙ e

pub peek_block :
    (v word : ℕ)
    → v < kernel_base
    → translate one_page 0x200000 v ≡ some (0x300000 + v % 4096)
    → one_page (0x300000 + v % 4096) ≡ word
    → peek layout one_page v ≡ some word
peek_block v word user e w = peek_one v word user (ap (word_at one_page) e ∙ ap some w)

pub machine-HasFree : HasFree layout machine (domain_64 0x10000040) blocks_1_2
unfolding translate
machine-HasFree = record {
  apart = one_page-IsApart;
  chain =
      cons (λ e. absurd (omega (arith, e))) (omega arith)
        (peek_block 0x10000040 0x10000080 (omega arith) refl refl) refl
        (cons (λ e. absurd (omega (arith, e))) (omega arith)
          (peek_block 0x10000080 0 (omega arith) refl refl) refl nil);
}

block_0 : peek layout one_page 0x10000000 ≡ some 0
unfolding translate
block_0 = peek_block 0x10000000 0 (omega arith) refl refl

double_free_lem_example :
    (g : Machine) × (free_free layout (domain_64 0x10000040) 0x10000000 machine
      ≡ done (domain_64 0x10000000) g)
    × (heap_domain_alloc layout (domain_64 0x10000000) g
        ≡ done (domain_64 0x10000000, 0x10000000) g)
double_free_lem_example =
    double_free_lem layout machine (domain_64 0x10000040) blocks_1_2 0x10000000 0 machine-HasFree
      (λ e. absurd (omega (arith, e))) (omega arith) block_0 refl

free_then_alloc_lem_example :
    (g : Machine) × (free_then_alloc layout 0x10000000 48 kernel
      ≡ done 0x10000000 (record kernel { machine = g }))
    × HasFree layout g (get_domain heap_64 kernel) blocks_1_2
    × (g.frames ≡ machine.frames)
free_then_alloc_lem_example =
    free_then_alloc_lem layout kernel heap_64 0x10000000 48 0 blocks_1_2
      (unfold class_base in (omega arith, omega arith)) (unfold owner_of_size in refl)
      (unfold get_domain in machine-HasFree) block_0 refl

kfree_heap_nobody_example : kfree_heap layout 0 kernel ≡ done tt kernel
kfree_heap_nobody_example = kfree_heap_nobody layout kernel 0 (omega arith)
