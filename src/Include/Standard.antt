-- ===== src/Include/Standard.antt =====
-- The lists of standard headers of utils/tools/cpplint.py.
use front_server.Common.{List, [], ◌∷◌, Text, codes}

-- `_STL_HEADERS`
abbrev pub stl_headers : List Text
stl_headers =
    codes "algobase.h"
    ∷ codes "algorithm"
    ∷ codes "alloc.h"
    ∷ codes "atomic"
    ∷ codes "bitset"
    ∷ codes "deque"
    ∷ codes "exception"
    ∷ codes "function.h"
    ∷ codes "functional"
    ∷ codes "future"
    ∷ codes "hash_map"
    ∷ codes "hash_map.h"
    ∷ codes "hash_set"
    ∷ codes "hash_set.h"
    ∷ codes "iterator"
    ∷ codes "list"
    ∷ codes "list.h"
    ∷ codes "map"
    ∷ codes "memory"
    ∷ codes "mutex"
    ∷ codes "new"
    ∷ codes "pair.h"
    ∷ codes "pthread_alloc"
    ∷ codes "queue"
    ∷ codes "set"
    ∷ codes "set.h"
    ∷ codes "sstream"
    ∷ codes "stack"
    ∷ codes "stl_alloc.h"
    ∷ codes "stl_relops.h"
    ∷ codes "type_traits.h"
    ∷ codes "utility"
    ∷ codes "vector"
    ∷ codes "vector.h"
    ∷ []

-- `_CPP_HEADERS`
abbrev pub cpp_headers : List Text
cpp_headers =
    codes "algo.h"
    ∷ codes "builtinbuf.h"
    ∷ codes "bvector.h"
    ∷ codes "cassert"
    ∷ codes "cctype"
    ∷ codes "cerrno"
    ∷ codes "cfloat"
    ∷ codes "ciso646"
    ∷ codes "climits"
    ∷ codes "clocale"
    ∷ codes "cmath"
    ∷ codes "complex"
    ∷ codes "complex.h"
    ∷ codes "csetjmp"
    ∷ codes "csignal"
    ∷ codes "cstdarg"
    ∷ codes "cstddef"
    ∷ codes "cstdio"
    ∷ codes "cstdlib"
    ∷ codes "cstring"
    ∷ codes "ctime"
    ∷ codes "cwchar"
    ∷ codes "cwctype"
    ∷ codes "defalloc.h"
    ∷ codes "deque.h"
    ∷ codes "editbuf.h"
    ∷ codes "exception"
    ∷ codes "fstream"
    ∷ codes "fstream.h"
    ∷ codes "hashtable.h"
    ∷ codes "heap.h"
    ∷ codes "indstream.h"
    ∷ codes "iomanip"
    ∷ codes "iomanip.h"
    ∷ codes "ios"
    ∷ codes "iosfwd"
    ∷ codes "iostream"
    ∷ codes "iostream.h"
    ∷ codes "istream"
    ∷ codes "istream.h"
    ∷ codes "iterator.h"
    ∷ codes "limits"
    ∷ codes "map.h"
    ∷ codes "multimap.h"
    ∷ codes "multiset.h"
    ∷ codes "numeric"
    ∷ codes "ostream"
    ∷ codes "ostream.h"
    ∷ codes "parsestream.h"
    ∷ codes "pfstream.h"
    ∷ codes "PlotFile.h"
    ∷ codes "procbuf.h"
    ∷ codes "pthread_alloc.h"
    ∷ codes "rope"
    ∷ codes "rope.h"
    ∷ codes "ropeimpl.h"
    ∷ codes "SFile.h"
    ∷ codes "slist"
    ∷ codes "slist.h"
    ∷ codes "stack.h"
    ∷ codes "stdexcept"
    ∷ codes "stdiostream.h"
    ∷ codes "streambuf.h"
    ∷ codes "stream.h"
    ∷ codes "strfile.h"
    ∷ codes "string"
    ∷ codes "strstream"
    ∷ codes "strstream.h"
    ∷ codes "tempbuf.h"
    ∷ codes "tree.h"
    ∷ codes "typeinfo"
    ∷ codes "valarray"
    ∷ []
