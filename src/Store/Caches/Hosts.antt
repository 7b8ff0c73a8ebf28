-- ===== src/Store/Caches/Hosts.antt =====
-- What the host cache and the PTR cache give back of what was saved (src/store.ts).
use gwsdb.Prelude.{
  ℕ, Text, text_eq, text_eq_refl, false, Option, none, some, List, [], ◌∷◌, ◌≡◌, refl, ap, ◌∙◌,
  arith, All, Option-cases, inl, inr, if◌then◌else◌,
}
use gwsdb.Store.Schema.{Db, PtrRow}
use gwsdb.Store.Tables.{ptr_row}
use gwsdb.Store.Tables.Keys.{by_key-update, by_key-update_ne, by_key-append, by_key_has}
use gwsdb.Store.Sql.{PtrCacheEntry, exec, exec_upsert_ptr, exec_stamp_ptr, batch, new_ptr_row}
use gwsdb.Store.Writes.{save_ptr}
use gwsdb.Store.Caches.{
  HostCacheEntry, HostRow, host_row, host_entry, get_host, set_host, save_host, is_expired, get_ptr,
  ptr_entry,
}
use gwsdb.Store.Caches.Lists.{IsItem, split_strings-join_strings}

abbrev hostname_of : HostRow → Text
hostname_of r = r.hostname

module _ (e : HostCacheEntry) (hosts : List HostRow) where
  saved_row : host_row e.hostname (save_host e hosts) ≡ some (set_host e e.hostname)
  unfolding save_host set_host
  saved_row = elim (Option-cases (host_row e.hostname hosts)) [
    | inl absent ↦ rw absent (
        by_key-append hostname_of e.hostname hosts (set_host e e.hostname ∷ [])
        ∙ ground (arith, absent, text_eq_refl e.hostname))
    | inr (r, present) ↦
        let key : r.hostname ≡ e.hostname = by_key_has hostname_of e.hostname hosts r present in
        rw present (
          by_key-update hostname_of e.hostname (λ q. text_eq q.hostname e.hostname)
            (λ q. set_host e q.hostname) hosts (λ q. refl)
          ∙ ground (arith, present, key, text_eq_refl e.hostname))
  ]

  other_row :
      (h : Text) → text_eq e.hostname h ≡ false → host_row h (save_host e hosts) ≡ host_row h hosts
  unfolding save_host set_host
  other_row h ne = elim (Option-cases (host_row e.hostname hosts)) [
    | inl absent ↦ rw absent (
        by_key-append hostname_of h hosts (set_host e e.hostname ∷ [])
        ∙ ground (arith, Option-cases (host_row h hosts)))
    | inr (r, present) ↦ rw present (
        by_key-update_ne hostname_of e.hostname h (λ q. set_host e q.hostname) hosts (λ q. refl) ne)
  ]

  -- A host's entry whose addresses are not empty texts and hold no semicolon is read back whole as
  -- long as its TTL is not over, and not at all afterwards; the entries of other hosts are read as
  -- before.
  pub save_host-get_host :
      (now : ℕ)
      → All IsItem e.ipv4
      → All IsItem e.ipv6
      → (get_host now e.hostname (save_host e hosts)
          ≡ (if is_expired now e.checked_at e.ttl_seconds then none else some e))
        × ((h : Text)
            → text_eq e.hostname h ≡ false
            → get_host now h (save_host e hosts) ≡ get_host now h hosts)
  unfolding get_host host_entry set_host
  save_host-get_host now v4 v6 = (
    ap (read now) saved_row
        ∙ rw (split_strings-join_strings e.ipv4 v4, split_strings-join_strings e.ipv6 v6),
    λ h ne. ap (read now) (other_row h ne),
  )
    where
      read : ℕ → Option HostRow → Option HostCacheEntry
      read at none = none
      read at (some row) = host_entry at row

-- So does the PTR cache.
abbrev ptr_ip_of : PtrRow → Text
ptr_ip_of r = r.ip

module _ (e : PtrCacheEntry) (db : Db) where
  saved_ptr_row : ptr_row e.ip (save_ptr e db).ptr_cache ≡ some (new_ptr_row e)
  unfolding save_ptr batch exec exec_upsert_ptr exec_stamp_ptr new_ptr_row
  saved_ptr_row = elim (Option-cases (ptr_row e.ip db.ptr_cache)) [
    | inl absent ↦ rw absent (
        by_key-append ptr_ip_of e.ip db.ptr_cache (new_ptr_row e ∷ [])
        ∙ ground (arith, absent, text_eq_refl e.ip))
    | inr (r, present) ↦
        let key : r.ip ≡ e.ip = by_key_has ptr_ip_of e.ip db.ptr_cache r present in
        rw present (
          by_key-update ptr_ip_of e.ip (λ q. text_eq q.ip e.ip) _ db.ptr_cache (λ q. refl)
          ∙ ground (arith, present, key, text_eq_refl e.ip))
  ]

  -- What `savePTR` has saved of an address whose names are not empty and hold no semicolon is read
  -- back whole as long as its TTL is not over, and not at all afterwards.
  pub save_ptr-get_ptr :
      (now : ℕ)
      → All IsItem e.ptr_hostnames
      → get_ptr now e.ip (save_ptr e db)
        ≡ (if is_expired now e.checked_at e.ttl_seconds then none else some e)
  unfolding get_ptr ptr_entry new_ptr_row
  save_ptr-get_ptr now names =
      ap (read now) saved_ptr_row ∙ rw (split_strings-join_strings e.ptr_hostnames names)
    where
      read : ℕ → Option PtrRow → Option PtrCacheEntry
      read at none = none
      read at (some row) = ptr_entry at row
