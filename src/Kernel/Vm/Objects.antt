-- ===== src/Kernel/Vm/Objects.antt =====
-- The pages of an anonymous object of kernel/vm.c.
use twcos.Common.{
  ℕ, suc, ◌+◌, ◌/◌, ◌<◌, ◌≡◌, ◌≢◌, ap, ◌∙◌, some, ◌==◌, if◌then◌else◌, Bool-cases, inl, inr, ==→eq,
  ne→==, lt→ltb, ==_refl,
}
use twcos.Libk.Map.{MapOps, map_get, map_put, map_put_all}
use twcos.Libk.Map.Contract.{IsMapOn, map_put_all-copies}
use twcos.Kernel.Pages.{page_alloc}
use twcos.Arch.Vmap.{alloc}
use twcos.Kernel.Vm.{
  anon, vnode, VmPage, Vm, ok, M, ◌>>=◌, pure, in_vmap, store_at, noted_page, note_page, fresh_page,
  get_page,
}
use twcos.Kernel.Vm.Segments.{new_object, vm_object_anon_copy}

-- The object of the pages noted is as before, but for the page at `offset`.
pub record Noted {Pages : Type 0} (page_ops : MapOps Pages) (PageValid : Pages → Type 0)
    (Key : ℕ → Type 0) (pages : Pages) (offset page : ℕ) (pages' : Pages) : Type 0 where
  pub valid : PageValid pages'
  pub reads :
      (at : ℕ)
      → Key (at / 4096)
      → noted_page page_ops pages' at
        ≡ (if at / 4096 == offset / 4096 then page else noted_page page_ops pages at)

module _ {Pages : Type 0} (page_ops : MapOps Pages) (Key : ℕ → Type 0) (PageValid : Pages → Type 0)
    (law : IsMapOn page_ops ◌==◌ Key PageValid) (vnode_get_page : ℕ → ℕ → M Pages ℕ) where
  noted_page-same :
      (pages : Pages) (at offset : ℕ)
      → at / 4096 ≡ offset / 4096
      → noted_page page_ops pages at ≡ noted_page page_ops pages offset
  unfolding noted_page
  noted_page-same pages at offset e = ap (λ k. (map_get page_ops pages k).0) e

  noted_page-map_put :
      (pages : Pages) (offset page at : ℕ)
      → Key (offset / 4096)
      → Key (at / 4096)
      → PageValid pages
      → noted_page page_ops (map_put page_ops pages (offset / 4096) page).1 at
        ≡ (if at / 4096 == offset / 4096 then page else noted_page page_ops pages at)
  unfolding noted_page
  noted_page-map_put pages offset page at a b v =
      law.get-put pages (offset / 4096) page (at / 4096) a b v

  again :
      (fuel o at page : ℕ) (pages : Pages) (s : Vm Pages)
      → s.objects o ≡ some (anon pages 0)
      → noted_page page_ops pages at ≡ page
      → page ≢ 0
      → get_page page_ops vnode_get_page (suc fuel) o at s ≡ ok (page, s)
  unfolding get_page
  again fuel o at page pages s object noted some_page =
      rw (get_page, object, ◌>>=◌, noted, ne→== page 0 some_page, pure, ne→== page 0 some_page)

  -- `vm_anon_get_page` of an object with no clean one returns, for an offset whose page is a key of
  -- the map of pages, and the object has noted the page that it returned for every offset in that
  -- page. No other page of the object changes. Where the page returned is not 0, the next call for
  -- such an offset returns it again and changes nothing.
  pub get_page-Noted :
      (fuel o offset : ℕ) (pages : Pages) (s : Vm Pages)
      → s.objects o ≡ some (anon pages 0)
      → Key (offset / 4096)
      → PageValid pages
      → (page : ℕ) × (s' : Vm Pages) × (pages' : Pages) × (get_page page_ops vnode_get_page
            (suc fuel)
            o
            offset
            s
          ≡ ok (page, s'))
        × (s'.objects o ≡ some (anon pages' 0))
        × Noted page_ops PageValid Key pages offset page pages'
        × ((at : ℕ)
            → page ≢ 0
            → at / 4096 ≡ offset / 4096
            → get_page page_ops vnode_get_page (suc fuel) o at s' ≡ ok (page, s'))
  unfolding get_page fresh_page note_page in_vmap alloc
  get_page-Noted fuel o offset pages s object key v =
      elim (Bool-cases (noted_page page_ops pages offset == 0)) [
        | inr has_page ↦ (
          noted_page page_ops pages offset,
          s,
          pages,
          rw (get_page, object, ◌>>=◌, has_page, pure, has_page),
          object,
          record {
            valid = v;
            reads = λ at a. elim (Bool-cases (at / 4096 == offset / 4096)) [
              | inr other ↦ rw other
              | inl same ↦ rw same (noted_page-same pages at offset (==→eq _ _ same))
            ];
          },
          λ at some_page e.
              again fuel o at (noted_page page_ops pages offset) pages s object
                (noted_page-same pages at offset e) some_page,
        )
        | inl fresh ↦
            let new : ℕ = (page_alloc s.vmap.mmap).0 in
            let pages' : Pages = (map_put page_ops pages (offset / 4096) new).1 in
            (
              new,
              record s {
                objects = store_at s.objects o (some (anon pages' 0));
                vmap = record s.vmap { mmap = (page_alloc s.vmap.mmap).1 };
              },
              pages',
              rw (
                get_page, object, ◌>>=◌, fresh, pure, fresh, fresh_page, in_vmap, alloc, note_page,
                object,
              ),
              rw (==_refl o),
              record {
                valid = law.put-Valid pages (offset / 4096) new key v;
                reads = λ at a. noted_page-map_put pages offset new at key a v;
              },
              λ at some_page e.
                  again fuel o at new pages' _ (rw (==_refl o))
                    (noted_page-same pages' at offset e
                      ∙ noted_page-map_put pages offset new offset key key v
                      ∙ rw (==_refl (offset / 4096)))
                    some_page,
            )
      ]

  -- `vm_object_anon_copy` makes a new object that has noted, for every offset whose page is a key of
  -- the map of pages, the very page that the old one has: the two share their pages.
  pub vm_object_anon_copy-Shares :
      (new_pages : Pages) (junk : VmPage) (from : ℕ) (pages : Pages) (clean : ℕ) (s : Vm Pages)
      → s.objects from ≡ some (anon pages clean)
      → PageValid pages
      → PageValid new_pages
      → ((at : ℕ) → Key (at / 4096) → noted_page page_ops new_pages at ≡ 0)
      → (s' : Vm Pages) × (pages' : Pages) × (vm_object_anon_copy page_ops new_pages junk
            vnode_get_page from s
          ≡ ok (s.next_object, s'))
        × (s'.objects s.next_object ≡ some (anon pages' clean))
        × ((at : ℕ)
            → Key (at / 4096)
            → noted_page page_ops pages' at ≡ noted_page page_ops pages at)
  unfolding vm_object_anon_copy new_object noted_page
  vm_object_anon_copy-Shares new_pages junk from pages clean s object v w empty =
      let copied : Pages = map_put_all page_ops page_ops new_pages pages in
      (
        record s {
          objects = store_at s.objects s.next_object (some (anon copied clean));
          next_object = s.next_object + 1;
        },
        copied,
        rw (vm_object_anon_copy, object),
        rw (==_refl s.next_object),
        λ at a.
            map_put_all-copies page_ops page_ops ◌==◌ Key PageValid PageValid law law new_pages
              pages (at / 4096) a w v (empty at a),
      )

module _ {Pages : Type 0} (page_ops : MapOps Pages) (vnode_get_page : ℕ → ℕ → M Pages ℕ) where
  -- A page that is not noted comes from the clean object, and is not noted then.
  pub get_page-vnode :
      (n o offset clean file q : ℕ) (pages : Pages) (s s1 : Vm Pages)
      → s.objects o ≡ some (anon pages clean)
      → 0 < clean
      → s.objects clean ≡ some (vnode file)
      → noted_page page_ops pages offset ≡ 0
      → vnode_get_page file offset s ≡ ok (q, s1)
      → q ≢ 0
      → get_page page_ops vnode_get_page (suc (suc n)) o offset s ≡ ok (q, s1)
  unfolding get_page
  get_page-vnode n o offset clean file q pages s s1 object below behind fresh read some_page = rw (
    get_page,
    object,
    ◌>>=◌,
    fresh,
    lt→ltb _ _ below,
    get_page,
    behind,
    read,
    ne→== q 0 some_page,
  )
