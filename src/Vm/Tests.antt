-- ===== src/Vm/Tests.antt =====
-- The theorems on vm.c at the process of `Sample`.
use nunix.Prelude.{ℕ, ◌-◌, ◌^◌, pos, ◌*◌, ◌≤◌, ◌<◌, ◌≡◌, ◌⊎◌, true, false, ◌==◌, ok, List, arith}
use nunix.Pages.{Kmem, pgsize, pground_up}
use nunix.Pages.FreeList.{mem}
use nunix.Vm.User.{allocuvm, deallocuvm, freevm, copyuvm}
use nunix.Vm.Process.{growproc}
use nunix.Vm.Given.{frame}
use nunix.Vm.Dropped.{Dropped}
use nunix.Vm.Dealloc.{deallocuvm-Dropped}
use nunix.Vm.Sbrk.{IsBack, growproc-growproc}
use nunix.Vm.Kernel.{Beside}
use nunix.Vm.Release.{Released, freevm-Released}
use nunix.Vm.Copy.{IsUser, Copied}
use nunix.Vm.Alloc.{Allocated, allocuvm-Allocated}
use nunix.Vm.{setupkvm}
use nunix.Vm.Child.{Undone, rounds, copyuvm-Copied}
use nunix.Vm.Sample.{
  dir, memory, free, kernel_end, kernel_data, a_process, memory-IsFree, memory-IsUser, image,
  free_above, nothing_above, page_above, memory-IsOwned,
}

copyuvm-Copied_example :
    (k' : Kmem) × (free' : List ℕ) × Beside memory free k' free'
    × IsUser k' dir free' 100
    × (((d : ℕ) × ((d == 0) ≡ false)
          × (copyuvm kernel_end kernel_data dir 100 memory ≡ ok (d, k'))
          × Copied kernel_data memory dir free k' d free' (rounds 100 * pgsize)
          × IsUser k' d free' 100)
        ⊎ ((copyuvm kernel_end kernel_data dir 100 memory ≡ ok (0, k'))
            × (((setupkvm kernel_data memory ≡ ok (0, k')) × (k'.freelist ≡ 0))
                ⊎ Undone kernel_end kernel_data dir (rounds 100) memory k' free')))
copyuvm-Copied_example =
    copyuvm-Copied kernel_end kernel_data dir 100 memory free image memory-IsFree free_above
      memory-IsUser

allocuvm-Allocated_example :
    (k' : Kmem) × (free' : List ℕ) × (allocuvm kernel_end dir 100 10000 memory ≡ ok (10000, k'))
    × IsUser k' dir free' 10000
    × Allocated memory dir free (pground_up 100) k' free' (pground_up 10000)
allocuvm-Allocated_example =
    allocuvm-Allocated kernel_end dir 100 10000 memory free memory-IsUser (omega arith)
      (omega arith) nothing_above (omega arith)

-- from an `oldsz` above the size of the process
deallocuvm-Dropped_example :
    (k' : Kmem) × (free' : List ℕ) × (deallocuvm kernel_end dir 9000 0 memory ≡ ok (0, k'))
    × IsUser k' dir free' 0
    × Dropped memory dir free (pground_up 0) k' free' (pground_up 100)
deallocuvm-Dropped_example =
    deallocuvm-Dropped kernel_end dir 100 9000 0 memory free memory-IsUser (omega arith)
      (omega arith) (omega arith) (λ u a b. nothing_above u a (omega arith)) page_above

freevm-Released_example :
    (k' : Kmem) × (free' : List ℕ) × (freevm kernel_end dir memory ≡ ok k')
    × Released memory dir free 100 k' free'
freevm-Released_example =
    freevm-Released kernel_end dir 100 memory free memory-IsUser nothing_above page_above
      memory-IsOwned

growproc-growproc_example :
    (k1 : Kmem) × (k2 : Kmem) × (free2 : List ℕ) × (growproc kernel_end 9900 a_process memory
      ≡ ok (pos 0, record a_process { sz = 10000 }, k1))
    × (growproc kernel_end (2 ^ 32 - 9900) (record a_process { sz = 10000 }) k1
        ≡ ok (pos 0, a_process, k2))
    × IsBack memory dir 100 k2 free2
    × ((u : ℕ) → pground_up 100 ≤ u → u < 10000 → mem (frame k1 dir u) free2 ≡ true)
growproc-growproc_example =
    growproc-growproc kernel_end 9900 a_process memory free memory-IsUser (omega arith)
      (omega arith) (omega arith) nothing_above free_above page_above (omega arith)
