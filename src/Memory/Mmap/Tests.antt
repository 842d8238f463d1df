-- ===== src/Memory/Mmap/Tests.antt =====
-- A mapping of two pages beside the heap of a process, taken back.
use asynclear.Prelude.{ℕ, ◌+◌, ◌-◌, ◌≡◌, refl, true, false, none, [], ◌∷◌, ok, arith}
use asynclear.Config.{usize_mod, mmap_start}
use asynclear.BTreeMap.{insert, before, after, last?}
use asynclear.Memory.Address.{add, page_start, vpn_floor, vpn_ceil}
use asynclear.Memory.Pte
use asynclear.Memory.Pte.{permission_from_prot}
use asynclear.Memory.VmArea.{VmArea, lazy}
use asynclear.Memory.VmArea
use asynclear.Memory.MemorySpace.{try_map, try_find_mmap_area, find_gap, user_map}
use asynclear.Memory.Heap.{ProcessInner}
use asynclear.Memory.Mmap.{Inodes, sys_mmap, map_shared}
use asynclear.Memory.Mmap.Roundtrip.{Undone, sys_mmap-sys_munmap}
use asynclear.Fs.FdTable.{FdTable}
use asynclear.Fs.OpenFlags.{has}

abbrev heap : VmArea
heap = record {
  start = 0x10000;
  end = 0x10004;
  perm = 0x16;
  area_type = lazy;
  unbacked_map = [];
  backed_inode = none;
  backed_pages = [];
  backed_inode_page_id = 0;
}

abbrev process : ProcessInner
process = record {
  memory_space = record {
    page_table = record { root_frame = 1; table_frames = [] };
    user_areas = (0x10000, heap) ∷ [];
    world = record { frames = λ p i. Pte.empty; supply = 2 ∷ 3 ∷ [] };
  };
  heap_start = 0x1000_0000;
  heap_end = 0x1000_4000;
}

abbrev inodes : Inodes
inodes = record { is_regular = λ f. true; cache = λ id. [] }

abbrev no_files : FdTable
no_files = record { files = []; rlim_curr = 16 }

abbrev first_page : ℕ
first_page = vpn_floor mmap_start

abbrev mapped : ProcessInner
mapped = record process {
  memory_space = record process.memory_space {
    user_areas =
        insert process.memory_space.user_areas first_page
          (VmArea.new first_page (first_page + 2) (permission_from_prot 3) lazy);
  };
}

-- A readable and writable, private and anonymous mapping of 5000 bytes.
mmap_runs :
    sys_mmap inodes no_files process 0 5000 3 0x22 (usize_mod - 1) 0 ≡ ok (mmap_start, mapped)
unfolding sys_mmap has try_map try_find_mmap_area find_gap user_map add page_start vpn_floor
    vpn_ceil before after last? insert VmArea.new permission_from_prot
mmap_runs = refl

not_shared : has 0x22 map_shared ≡ false
unfolding has
not_shared = refl

sys_mmap-sys_munmap_example : Undone process mapped mmap_start 5000 (permission_from_prot 3)
sys_mmap-sys_munmap_example =
    sys_mmap-sys_munmap inodes no_files process mapped 0 5000 3 0x22 (usize_mod - 1) 0 mmap_start
      (refl, omega arith, omega arith, omega arith, tt) (omega arith) not_shared mmap_runs
