-- ===== src/Lib.antt =====
-- Verification of the compatibility layer of the rtw88 Wi-Fi driver for macOS, and of the scan list
-- that its control program reads.
--
-- The driver is Linux's rtw88, a git submodule. The C files under src/compat stand in for the
-- Linux kernel: they offer the driver's calls of Linux and carry them out with XNU's. The C++ files
-- under src/kext attach the driver to IOKit, and ctl/main.c is the program that controls it. This
-- development is about the C code in which a mistake stays hidden: state shared between threads, and
-- arithmetic on pointers, indices and machine words.
--
-- The parts, and the files that model them
--
-- Base: the shared names; lists measured by native numbers (Lists), Boolean tests (Tests), and
--   memories, which are functions from an address (Memory). Bits: facts about bit_and.
-- Log: rtw88_log_append and rtw88_read_log of src/compat/rtw88_compat.c. The record LogRing has
--   the ring of 8192 bytes and its two indices. A log message is the list of its characters up to
--   its end, and the loop over it is recursion on that list; reading is recursion on max_len.
-- ThreadCall: src/compat/rtw88_thread_call.c. Each function is one section between IOLockLock and
--   IOLockUnlock on the state Call, and a function that sleeps is cut at its loop into what comes
--   before, the test, and what comes after. XNU's thread calls are the parameter Native, a record
--   of operations and of what the shim relies on; Tests fills it. System puts the sections of all
--   threads together as a step relation, Inv has the invariant of that relation.
-- Timer: timer_setup, timer_call_fn, mod_timer, del_timer and del_timer_sync of rtw88_compat.c,
--   on the fields of struct timer_list, and the helpers of src/compat/linux/jiffies.h (Clock). The
--   clock's reading and the success of an allocation are arguments.
-- Workqueue: the work queues of rtw88_compat.c and src/compat/linux/workqueue.h. One lock,
--   work_state_lock, serializes them, so that each function is again a section on one State, which
--   has all works, queues and timers by number. Delayed has the works behind timers, which call
--   Timer; Worker has the queue's thread; Cancel has cancelling and flushing. Steps is the relation
--   of all sections of all threads, and Inv, InvWorker and InvCancel carry its invariant.
-- Skb: the socket buffers of src/compat/linux/skbuff.h. Pointers are numbers of 64 bits and
--   lengths of 32, with the wrap-around written out, over a memory of bytes. Queue has the queues of
--   buffers; the list is what the links of struct list_head hold, and the purge runs on fuel, one
--   more than the list is long.
-- Frames: ieee80211_nullfunc_get and ieee80211_pspoll_get of rtw88_compat.c, which build their
--   frames through Skb, the frame control tests of src/compat/net/mac80211.h (Control), and
--   channels and frequencies (Channel).
-- BssList: the list of networks as cmdGetBSSList of src/kext/RTW88IEEE80211.cpp writes it and
--   cmd_list of ctl/main.c reads it. The reader's loop has the number of bytes as its fuel, and each
--   round takes 14 bytes or more.
--
-- Firmware: src/compat/rtw88_firmware.c, from the path that the driver asks for to the bytes of the
--   embedded blob, on a heap that keeps the blocks and their sizes. zlib is the parameter Zlib, and
--   the memory that it takes for itself between inflateInit and inflateEnd is its own affair: the
--   model counts the streams that are open. Name has the base name, Load what is taken and given
--   back, Outcome when a firmware is loaded.
--
-- Bitmap: the searches of src/compat/linux/bitops.h over words of 64 bits. Word has the bits of one
--   word, Find the searches for ones, Zeros those for zeros. A loop over the words is recursion on
--   how many are left; __builtin_ctzl is counted bit by bit.
--
-- Bytes: the words of src/compat/asm/unaligned.h and the addresses of
--   src/compat/linux/etherdevice.h, on lists of bytes.
--
-- Reorder: the receive side of block acknowledgement in src/kext/RTW88IEEE80211.cpp, one window of
--   at most 64 slots for each TID. Window relates the slots to positions, sequence numbers that do
--   not wrap, Moves has the loops, Place the slot of a frame, Input, Flush and Teardown the
--   functions. The sliding loop has 2048 as fuel, since it runs only while fewer than 2048 are left,
--   the releasing loop 64, since it hands on 64 frames at most, and the loop over the holes the 4096
--   of its own guard.
--
-- Wpa: the key arithmetic of src/kext/RTW88IEEE80211.cpp. HMAC-SHA1 and the AES block cipher of
--   that file are the record Cipher. Xor has exclusive or, Unwrap the wrapping of RFC 3394 beside
--   the unwrapping, Ptk the pairwise key, Frame the EAPOL-Key frames, Kde and Rsn the elements. The
--   walk over the key data has the number of its bytes as fuel, since each round takes two.
-- Mlme: the station of src/kext/RTW88IEEE80211.cpp and the checks of
--   src/kext/RTW88MgmtValidation.hpp: one record for the fields of the class, one function for each
--   handler, with the answers of the chip driver as arguments and what it is asked in a trace. Link
--   has keys, disconnecting and power, Scan scanning, Join joining, Handshake the 4-way handshake,
--   Rx frames and the timer. It uses the windows of Reorder and the keys of Wpa. Step has each call
--   as a step, Valid and Keep the invariant, Safety what holds of the reachable states. A handler
--   is one step; where it sleeps and others may act, what it then reads is an argument: the rounds
--   of abortActiveScan, of doAuthenticate and of runManualScan. The driver is attached throughout:
--   start and stop are not steps.
--
-- Air: the frames of src/kext/RTW88IEEE80211.cpp as bytes. Send has txDataFrame, Receive
--   deliverDataFrame and deAmsdu, Route rxFrame and processRxData, Awdl the frames between peers,
--   Elements and Manage the management frames. Relay is an access point as the standard has it and
--   Arrive a frame's whole way, Nonce the packet numbers, Amsdu and Aggregate the split of an
--   A-MSDU, Assoc, Offer and Supplicant the association request, Agree block acknowledgement. The
--   loop of deAmsdu has the payload's length as fuel and takes 20 bytes a round; the walk over
--   elements has their length and takes two. Whether the stack has a packet of some size is a
--   function, and so is the allocator's answer.
--
-- Aes: the block cipher of src/kext/RTW88IEEE80211.cpp. Fips has the field, the S-box and the key
--   expansion as FIPS 197 writes them, Table compares the program's tables with them byte by byte,
--   Field and Column have the multiplication and the matrix, Block and Schedule the parts of a round
--   and the key, Expand the key schedule beside the one of the standard, Invert the cipher of the
--   standard and its inverse. Eight rounds of aes_mul are enough, since its second factor has eight
--   bits. Wpa takes the cipher as an argument; Wrapped puts this one in.
--
-- Sha1: SHA-1 and HMAC of src/kext/RTW88IEEE80211.cpp. Stream has the loop over blocks, whose fuel
--   is the length since a round takes 64 bytes, Update what a context is after a text, Pieces two
--   texts in a row, Digest whole messages and HMAC, Fill the loop that fills the last block, whose
--   64 rounds are enough.
--
-- Beacon: processScanResult of src/kext/RTW88IEEE80211.cpp. Parsed has the arrays that are written,
--   Listed the list of networks. The walk over the elements has the frame's length as fuel.
--
-- What is not modelled
--
-- Sleeping and waking: a thread that waits may look at its condition at any step, so nothing is
-- said of a wake-up that is missed. The memory given back by kfree_skb and destroy_workqueue is not
-- tracked; the thread call's is. The functions that the driver hands in (work functions, timer
-- functions, callbacks) are steps of their own or left out. A beacon changes nothing in the
-- station's steps: its parsing is Beacon, with a list of its own. The frames of Air are bytes beside
-- those steps, which record that a frame is sent and not its content; taking bytes out of a packet
-- of the stack (mbuf_copydata) always succeeds. inflateEnd closes the stream whatever it answers.
-- The system log, IOKit, PCI and DMA, the AirPort interface classes and the firmware tables have no
-- model.
pub mod Base
pub mod Log
pub mod ThreadCall
pub mod Timer
pub mod Workqueue
pub mod Bits
pub mod Skb
pub mod Frames
pub mod BssList
pub mod Firmware
pub mod Bitmap
pub mod Bytes
pub mod Reorder
pub mod Wpa
pub mod Mlme
pub mod Sha1
pub mod Beacon
pub mod Aes
pub mod Air
