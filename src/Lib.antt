-- ===== src/Lib.antt =====
-- DazukoFS: a stacked file system with access control by registered processes, and the devices that
-- they use.
--
-- The file system hands each call on to a lower one, and asks for every open of a file.
-- `dazukofs_check_access` (event.c) posts an event to each active group, waits, and denies the
-- access if a group did. Registered processes add and remove groups by commands to the control
-- device (ctrl_dev.c), take events from the device of their group and answer them (group_dev.c),
-- mostly through the library of test/lib, as test/showfiles.c does. A process that holds the ignore
-- device open (ign_dev.c) is not asked for. dev.c sets the devices up.
--
-- Which file models which part:
--
--   Base and its children: lists, tests, machine words and C strings that the parts share.
--   Events/State: the structures and static variables of event.c, and faults as `none`.
--   Events/Release, Groups, Access, Serve, Deliver, Listing: the functions of event.c, by the
--     names that they have there. A function that gives up `work_mutex` on the way is split at
--     that point: begin_access and finish_access are `dazukofs_check_access`, take_event and
--     settle_event are `dazukofs_return_event`. choose_id and
--     add_chosen are `dazukofs_add_group`.
--   Events/System: the steps that the processes take, one critical section at a time, and Reach.
--   Events/Tally, Pointers, Invariant, Verdict, Safety: what is proved of them. Events/Phase: an access
--     as its event shows it; Refinement: the moves of an access that the steps refine, with Quiet for
--     the calls that leave the events alone and Invariant/Withdrawing for the removals; Denial: a
--     denial lasts; Settling: the second section of an answer; Registry: the ids and names of the active
--     groups, and that the choice of a call of dazukofs_add_group still fits at its second section.
--     Listing/Printed: the text of the list. Events/Examples: concrete runs.
--   Ignore: ign_dev.c. Control: ctrl_dev.c. GroupDevice: group_dev.c; its Proofs and
--     Delivered: the answers and the events as texts that the other side reads. Library, with
--     Library/Filename: test/lib/dazukofs.c; Library/Listed: it reads the list of groups. ShowFiles:
--     test/showfiles.c.
--   Devices: dazukofs_dev_init and dazukofs_dev_destroy of dev.c, with the setup functions of
--     event.c, ctrl_dev.c, ign_dev.c and group_dev.c. The calls of the kernel are answered by a
--     function; the resources are named by kind and minor number. Devices/Loading and Unloading:
--     init_dazukofs_fs and exit_dazukofs_fs of super.c, which load and unload the module.
--   Fs/Kernel: what the stacked file system calls: the lower file system and the VFS, as a record of
--     functions over a world that is not looked into. Fs/State: the private data of dazukofs_fs.h with
--     its accessors, the dentries, inodes, files and pages of the upper layer, and the monad.
--   Fs/Interpose, Create, Attributes: inode.c. Fs/Lookup: dazukofs_lookup of inode.c, and dentry.c.
--     Fs/Files: file.c. Fs/Pages: mmap.c. Fs/Super: super.c.
--   Fs/Balance: what a trace has taken and given back. Fs/Interposing, Creating, Making, Removing,
--     Looking, Following: what is proved of inode.c; Opening, Marking, Writing: of file.c; Paging: of mmap.c;
--     Mounting: of super.c; Comparing: of dentry.c; Refreshing: of setattr and
--     revalidation; Lifetimes: of a lookup with its release, and of an opening with its release; Checked: of an opening
--     whose access has been denied; Older: create, revalidation and comparing as compiled before 3.6.
--     Fs/Sample, Examples: a concrete lower file system and runs over it.
--
-- How the code corresponds: a pointer is an address, a freed address holds nothing, and a use of it
-- is `none`. A container is live exactly while it stands on a list. `atomic_inc`, `atomic_dec` and
-- `int` fields wrap at 32 bits, `unsigned long` at 64. A locked region is one step, so that the
-- locks themselves are not in the state. Reference counts of the kernel, wake-ups and frees are
-- recorded as a trace. The allocator's answers, `dentry_open`, `get_unused_fd`, the ends of waits
-- and the system calls of the library are parameters. In the stacked file system references, locks,
-- mapped pages and structures that are taken and given back are recorded in the trace of its state; `Net`
-- says how much more and how much less is held from one trace to another. An upper object is an
-- address, a NULL pointer that is followed and a write behind a buffer are faults. Code under a test
-- of the kernel's version is modelled as it is compiled for version 3.6 and later, and in Fs/Older as it
-- is before; the access check
-- of an opening is an argument of dazukofs_open, since other processes run while it waits.
--
-- Fuel: `choose_id` has one round more than there are groups, since each round that goes on has met
-- an active group with its id. `try_groups` has a round for each byte that is needed, and each round
-- doubles the size. A 64-bit number has at most 20 digits.
--
-- The steps of Events/System are the sections of accesses, of answers that are no reposts, of adding
-- and removing groups, of tracking and of claiming. `group_count_sem`, which dazukofs_add_group and
-- dazukofs_remove_group hold for writing and an access from its allocation to its posting for reading, is
-- in the guards of the steps. The code lets the close of a tracked group's device remove the group
-- without this semaphore: runs in which that happens between the choice of an id and the increment of
-- `group_count` by dazukofs_add_group are left out, by the last condition of the step close_device, and
-- by the increment being of one step with the second section. The stages of
-- `dazukofs_get_event` and the reposts are defined, but are not steps.
--
-- Not modelled: the branches of the stacked file system for kernels before 3.6, but for those of
-- Fs/Older; its tables of operations, the texts of its messages, the signal handlers of
-- test/showfiles.c (each turn of its loop says whether it runs) and the stub ooo/ooo.c.
pub mod Base
pub mod Events
pub mod Ignore
pub mod Control
pub mod GroupDevice
pub mod Library
pub mod ShowFiles
pub mod Devices
pub mod Fs
