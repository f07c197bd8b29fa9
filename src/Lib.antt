-- ===== src/Lib.antt =====
-- gipcy is a library of interprocess objects (semaphores, mutexes, events, shared memory) with one
-- interface on several systems. On QNX the objects live in a resource manager, the driver of
-- qnx/ipcdrv, and the library of qnx/insys sends it requests by `devctl`. On Linux they live in a
-- module of the kernel, linux/ipcdrv, and the library of linux/libsrc/insys sends it requests by
-- `ioctl`. These four are modelled, and the helpers for INI files and numbers of the Linux library.
--
-- The driver on QNX. A client names an object; the driver keeps one list of allocated structures per
-- kind, guarded by a semaphore, and hands out the address of a structure as the handle.
--   Driver/Ioctl        qnx/ipcdrv/ipcioctl.h: requests and their data
--   Driver/Objects      qnx/ipcdrv/ipcdrv.h: the structures, the identifiers, `struct ipc_driver`
--   Driver/Machine      what the functions run on: a memory of allocated objects, the driver
--                       structure, and runs that end, fault or block
--   Driver/Struct       what the four kinds have in common, as a record of operations and laws
--   Driver/Table        the loops that ipcsem.cpp, ipcmutex.cpp, ipcevent.cpp and ipcshm.cpp share;
--                       its children relate them to lists of cells
--   Driver/SemPart, MutexPart, EventPart, ShmPart
--                       qnx/ipcdrv/ipcsem.cpp, ipcmutex.cpp, ipcevent.cpp, ipcshm.cpp, one function
--                       per function (`ipc_sem_create` and so on)
--   Driver/Timeout, Instance
--                       qnx/ipcdrv/ipcdrv.cpp: `ms_to_timespec`, `create_instance`, `remove_instance`
--   Driver/Devctl       qnx/ipcdrv/resmgr.cpp: `io_devctl`, as `dispatch` over the requests
--   Driver/Registry     the specification: four tables of entries, and what it means that a world
--                       realises them. An operation refines its change of the registry.
--   Driver/Session      sequences of requests: the worlds that they lead to, with the holders of a mutex
--                       (`Held`), and the requests to a new instance (`Serving.serve`)
--
-- The client on QNX.
--   Client/Device       qnx/insys/qnxipc.cpp: the descriptor of the device, IPC_init, IPC_cleanup
--   Client/Requests     how a call reaches `io_devctl` through `devctl`
--   Client/SemIpc, MutexIpc, EventIpc
--                       qnx/insys/semipc.cpp, mutexipc.cpp, eventipc.cpp (`IPC_createSemaphore` is
--                       `ipc_create_semaphore`, and so on)
--   Client/ShmIpc       qnx/insys/shmipc.cpp, with the object of a shared memory from qnx/qnxipc.h
--   Client/EndToEnd     calls of the client against the registry
--   Client/Sessions     captures of a mutex in sessions of clients
--
-- The module of the Linux kernel. It has the same four kinds of objects, each in a list that a lock
-- guards, and tells the program the address of a field of the entry as the handle.
--   Linux/Ioctl, Objects
--                       linux/ipcdrv/ipcioctl.h and ipcmodule.h
--   Linux/Kernel        what the functions use of the kernel, and the ways a request can end: `done`,
--                       `waits`, and `oops` for an access to memory that cannot be read or that is
--                       no entry
--   Linux/Entries       the code that ipcsem.c, ipcmutex.c, ipcevent.c and ipcshm.c share: the test of
--                       a handle, the search, the insertion, the closing of one entry and of all
--   Linux/SemPart, MutexPart, EventPart, ShmPart
--                       linux/ipcdrv/ipcsem.c, ipcmutex.c, ipcevent.c, ipcshm.c
--   Linux/Rw            linux/ipcdrv/ioctlrw.c: the copies between program and kernel
--   Linux/Module        linux/ipcdrv/ipcmodule.c: opening and closing the device, `ipc_device_ioctl`
--   Linux/Start         linux/ipcdrv/ipcmodule.c: loading and unloading, `ipc_probe`, `ipc_remove`,
--                       `ipc_module_init`, `ipc_module_cleanup`, with their cleanup labels
--   Linux/Safety        the invariant of the driver, and which requests are fair
--   Linux/Session       sequences of requests: the states that fair requests lead to (`Reached`), and
--                       the lockers that hold a mutex (`Held`)
--   Linux/Calls         linux/libsrc/insys: linipc.cpp, and semipc.cpp, mutexipc.cpp, eventipc.cpp,
--                       shmipc.cpp in the modules below it
--
-- The helpers of linux/libsrc/sysipc.cpp, which need no driver.
--   System/Chars        IPC_strlwr, and what the helpers use of string.h
--   System/Profile      FindSection, IsSection, IsOptionName, FindOption (`find_section` and so on)
--   System/Profile/Read IPC_getPrivateProfileString, over the lines that `getline` of an ifstream
--                       reads; the modules beside it relate it to files made of lines
--   System/Profile/Write
--                       IPC_writePrivateProfileString, over the lines that `fgets` reads
--   System/Itoa         IPC_itoa, with the value of a text as a number in System/Itoa/Digits
--
-- Base has the helpers; Driver/Sample is a concrete driver, and the modules called Examples,
-- ClosingExamples, SessionExamples, ShmExamples, CallExamples and WriteExamples run the code on
-- concrete data.
--
-- Conventions. A pointer is its address, and the memory maps it to an object or to nothing;
-- following a null, freed or mistyped pointer is `fault`. A `sem_t` is its count. The driver has
-- one thread, so a wait on a count of 0 is `blocked`, unless a signal interrupts it: the driver
-- has handlers for SIGINT, SIGTERM and SIGQUIT. Counters wrap at 2 ^ 32; a C int is an
-- integer. A name is its bytes before the terminating zero. What the C library and the kernel
-- decide (the address that `malloc` returns, the clock, the width of a `time_t`, signals, SEM_VALUE_MAX,
-- `errno`, what an int product beyond the largest int leaves in a wider integer, the results of
-- `open`, `devctl` (0 or a positive error number), `iofunc_devctl_default`, and of `shm_open` and the calls after it) is a
-- parameter. The loops are structural recursion on the list, except that of the *_close_all
-- functions, which changes the list that it counts through: it gets as fuel the length of the list
-- and one, and every round either ends the loop or takes one entry out.
--
-- On Linux an entry is allocated when it joins its list and freed when it leaves it, so a list is its
-- entries at their addresses. A request takes the lock of its list and gives it back before it ends or
-- waits for an object; a request is one step. A request whose wait cannot end in the state as it is
-- `waits` and changes nothing, and when the wait ends, the step is the same request in the state of
-- that moment; a wait with a timeout is the answer that it has at the moment when it is made. What the
-- kernel answers (the address of new memory, what a stray pointer leads to, whether a signal
-- comes) is the record `Kernel`, for the loading `Boot`, and the library's calls of the system
-- `System`. The handle of an entry lies at offset 152 of its structure, as on a 64-bit machine.
--
-- In the INI functions a file is its bytes, none of which is zero, letters are those of the C
-- locale, and nSize is not negative. The array `str` keeps what a longer line left in it, so its
-- contents are part of the state, and those before the first line are a parameter. The loops get
-- fuel, one for each line (for writing, the length of the file and two); running out of it is the
-- result `forever`, an access outside an array `fault`. IPC_itoa makes at most 32 rounds, since an
-- int is below 2 ^ 32 and a base is at least 2.
--
-- Not modelled: the trace messages; `main` of the resource manager; what is printed below /proc
-- (linux/ipcdrv/ipcproc.c) and the calls that ipcext.c supplies for kernel 2.4; `delete_ipc_object`,
-- which only frees; the closing of an entry while another request waits for it, which frees what the
-- waiting request reads afterwards; the POSIX, System V and Windows backends; the wrappers of files,
-- sockets and threads; the INI functions of the other systems, and the helpers that are one call of
-- the system each.
pub mod Base
pub mod Driver
pub mod Client
pub mod Linux
pub mod System
