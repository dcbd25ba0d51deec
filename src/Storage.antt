-- ===== src/Storage.antt =====
-- dht/storage.go: the two kinds of storage that the program has, behind the interface `Storage`,
-- and `BlobStore`, which only the one on disk implements.
pub mod Memory
pub mod Files
pub mod Disk
pub mod Names
pub mod Laws
pub mod Blobs
pub mod Escape
use webrtc_dht.Prelude.{Option, none, some, Text, Bytes}
use webrtc_dht.Key.{Key}
use webrtc_dht.Types.{ValueMeta, Result}
use Memory.{MemoryStorage}
use Memory
use Files.{Formats}
use Disk.{DiskStorage}
use Disk

pub data Storage : Type 0 where
  memory : MemoryStorage → Storage
  disk : DiskStorage → Storage

module _ (F : Formats) where
  unfoldable pub get : Storage → Key → Option ValueMeta
  get (memory s) key = Memory.get s key
  get (disk s) key = Disk.get F s key

  unfoldable pub put : Storage → Key → ValueMeta → Storage
  put (memory s) key value = memory (Memory.put s key value)
  put (disk s) key value = disk (Disk.put F s key value)

  unfoldable pub delete : Storage → Key → Storage
  delete (memory s) key = memory (Memory.delete s key)
  delete (disk s) key = disk (Disk.delete F s key)

-- `node.storage.(BlobStore)`
unfoldable pub as_blob_store : Storage → Option DiskStorage
as_blob_store (memory s) = none
as_blob_store (disk s) = some s
